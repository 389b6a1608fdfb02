-- ===== src/Plan/Hash.antt =====
-- internal/engine/execution_runtime.go: `deterministicExecutionValue`, on 64-bit words.
mod Tests
use Prim.Native.Nat.{ℕ, zero, suc, ◌+◌, ◌*◌, ◌/◌, ◌%◌, ◌^◌, ◌<◌}
use Prim.Native.String.{String, [], ◌∷◌}
use Prim.Native.Char.{Char, code}
use mathlib.Core.Path.{◌≡◌, refl}
use flow_routine.Prelude.{arith, ltb, if◌then◌else◌}

abbrev word : ℕ → ℕ
word n = n % 2 ^ 64

-- The lowest `n` bits in which a and b differ.
unfoldable xor : ℕ → ℕ → ℕ → ℕ
xor zero a b = 0
xor (suc n) a b = 2 * xor n (a / 2) (b / 2) + (a + b) % 2

abbrev mix : ℕ → ℕ → ℕ
mix a b = xor 64 a b

-- `value ^= uint64(branchID[index]); value *= 1099511628211`.
abbrev hash_byte : ℕ → ℕ → ℕ
hash_byte value byte = word (mix value byte * 1_099_511_628_211)

-- The bytes of a character are its UTF-8.
abbrev hash_char : ℕ → ℕ → ℕ
hash_char value c =
    if ltb c 0x80
    then hash_byte value c
    else if ltb c 0x800
    then hash_byte (hash_byte value (0xc0 + c / 64)) (0x80 + c % 64)
    else if ltb c 0x10000
    then hash_byte (hash_byte (hash_byte value (0xe0 + c / 4096)) (0x80 + c / 64 % 64))
        (0x80 + c % 64)
    else hash_byte
        (hash_byte (hash_byte (hash_byte value (0xf0 + c / 262144)) (0x80 + c / 4096 % 64))
          (0x80 + c / 64 % 64))
        (0x80 + c % 64)

unfoldable hash_text : ℕ → String → ℕ
unfolding xor
hash_text value [] = value
hash_text value (c ∷ rest) = hash_text (hash_char value (code c)) rest

abbrev golden : ℕ
golden = 0x9e3779b97f4a7c15

-- `value ^= value >> 30` and the like.
abbrev fold_down : ℕ → ℕ → ℕ
fold_down value shift = mix value (value / 2 ^ shift)

abbrev finish : ℕ → ℕ
finish value =
    let first = word (fold_down value 30 * 0xbf58476d1ce4e5b9) in
    let second = word (fold_down first 27 * 0x94d049bb133111eb) in fold_down second 31

unfoldable pub deterministic_execution_value : ℕ → ℕ → String → ℕ
unfolding hash_text xor
deterministic_execution_value worker_index iteration_index branch_id =
    let hashed = hash_text 14_695_981_039_346_656_037 branch_id in
    let worker = word (mix hashed (word (worker_index + 1)) * golden) in
    finish (mix worker (word (iteration_index + golden)))
