-- ===== src/Plan/Hash/Tests.antt =====
-- The published values of FNV-1a, which `deterministicExecutionValue` begins with.
use mathlib.Core.Path.{◌≡◌, refl}
use flow_routine.Plan.Hash.{hash_text}

hash_text-a : hash_text 0xcbf29ce484222325 "a" ≡ 0xaf63dc4c8601ec8c
unfolding hash_text
hash_text-a = refl

hash_text-foobar : hash_text 0xcbf29ce484222325 "foobar" ≡ 0x85944171f73967e8
unfolding hash_text
hash_text-foobar = refl
