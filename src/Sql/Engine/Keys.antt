-- ===== src/Sql/Engine/Keys.antt =====
-- The keys of the caches of the engine, against `hash_key` of cache.rs.
use graphnight.Base.{ℕ, ◌≡◌, refl, sym, ◌∙◌, String, List, [], ◌∷◌, ◌++◌, ◌+s◌}
use text.Mathlib.TextLemmas.{nil-append, cons-append}
use mathlib.Core.List.{append_assoc}
use graphnight.Sql.Cache.Keys.{
  bytes, feed_u8, feed_bytes, feed_parts, feed_str, hash_bytes, hash_key, new_hasher,
}
use graphnight.Sql.Engine.{key_of}

feed_bytes-append :
    (h : ℕ) (xs ys : List ℕ) → feed_bytes h (xs ++ ys) ≡ feed_bytes (feed_bytes h xs) ys
unfolding feed_bytes
feed_bytes-append h [] ys = refl
feed_bytes-append h (x ∷ xs) ys = feed_bytes-append (feed_u8 h x) xs ys

bytes-append : (s t : String) → bytes (s +s t) ≡ bytes s ++ bytes t
unfolding bytes
bytes-append String.[] t = rw (nil-append t) refl
bytes-append (String.◌∷◌ c s) t =
    rw (cons-append c s t, bytes-append s t) (sym (append_assoc _ (bytes s) (bytes t)))

feed_bytes-part :
    (h : ℕ) (a : String) (rest : List ℕ)
    → feed_bytes h (bytes a ++ (0 ∷ rest)) ≡ feed_bytes (feed_u8 (feed_str h a) 0) rest
unfolding feed_bytes feed_str
feed_bytes-part h a rest = feed_bytes-append h (bytes a) (0 ∷ rest)

-- Texts with a zero byte behind each.
abbrev pub separated : List String → List ℕ
separated [] = []
separated (a ∷ rest) = bytes a ++ (0 ∷ separated rest)

feed_parts-separated :
    (h : ℕ) (parts : List String) → feed_parts h parts ≡ feed_bytes h (separated parts)
unfolding feed_parts feed_bytes
feed_parts-separated h [] = refl
feed_parts-separated h (a ∷ rest) =
    feed_parts-separated (feed_u8 (feed_str h a) 0) rest
    ∙ sym (feed_bytes-part h a (separated rest))

-- The key of three texts is the hash of them written one behind the other, so that it does not tell
-- where one text ends and the next begins; `hash_key` hashes its texts with a zero byte behind each.
pub key_of-hash_key :
    (a b c : String) (parts : List String)
    → (key_of a b c ≡ hash_bytes (bytes (a +s b +s c)))
      × (hash_key parts ≡ hash_bytes (separated parts))
unfolding key_of hash_bytes hash_key feed_str
key_of-hash_key a b c parts = (
  rw
      (
        bytes-append a (b +s c),
        bytes-append b c,
        feed_bytes-append new_hasher (bytes a) (bytes b ++ bytes c),
        feed_bytes-append (feed_bytes new_hasher (bytes a)) (bytes b) (bytes c),
      )
      refl,
  feed_parts-separated new_hasher parts,
)
