-- ===== src/Core/Security/AuditLog.antt =====
-- `AuditLogger` of security.rs, a bounded buffer, over any type of entries.
use graphnight.Base.{
  ℕ, zero, suc, ◌-◌, ◌≤◌, ◌<◌, ◌≡◌, refl, ap, sym, ◌∙◌, true, false, Bool-cases, inl, inr, List, [],
  ◌∷◌, ◌++◌, arith, length, length-append, ltb, if◌then◌else◌,
}
use mathlib.Core.List.{tail, append_assoc, append-nil}

pub record AuditLogger {ℓ} (E : Type ℓ) : Type ℓ where
  pub entries : List E
  pub max_entries : ℕ

module _ {ℓ} {E : Type ℓ} where
  abbrev pub new_logger : ℕ → AuditLogger E
  new_logger max_entries = record { entries = []; max_entries = max_entries }

  abbrev buffer : ℕ → List E → AuditLogger E
  buffer m entries = record { entries = entries; max_entries = m }

  -- `push`, and `remove(0)` where the buffer is too long.
  unfoldable pub log : AuditLogger E → E → AuditLogger E
  log l entry =
      let entries = l.entries ++ entry ∷ [] in
      record l { entries = if ltb l.max_entries (length entries) then tail entries else entries }

  pub log_all : AuditLogger E → List E → AuditLogger E
  log_all l [] = l
  log_all l (e ∷ es) = log_all (log l e) es

  pub clear : AuditLogger E → AuditLogger E
  clear l = record l { entries = [] }

  abbrev pub drop : ℕ → List E → List E
  drop zero xs = xs
  drop (suc n) [] = []
  drop (suc n) (x ∷ xs) = drop n xs

  -- The last `n` items of a list.
  abbrev pub last : ℕ → List E → List E
  last n xs = drop (length xs - n) xs

  length-drop : (n : ℕ) (xs : List E) → length (drop n xs) ≡ length xs - n
  length-drop zero xs = omega arith
  length-drop (suc n) [] = omega arith
  length-drop (suc n) (x ∷ xs) = omega (arith, length-drop n xs)

  drop-append : (n : ℕ) (xs ys : List E) → n ≤ length xs → drop n (xs ++ ys) ≡ drop n xs ++ ys
  drop-append zero xs ys h = refl
  drop-append (suc n) [] ys h = absurd (omega arith)
  drop-append (suc n) (x ∷ xs) ys h = drop-append n xs ys (omega arith)

  drop-nil : (n : ℕ) → drop n [] ≡ []
  drop-nil zero = refl
  drop-nil (suc n) = refl

  tail-drop : (n : ℕ) (xs : List E) → tail (drop n xs) ≡ drop (suc n) xs
  tail-drop zero [] = refl
  tail-drop zero (x ∷ xs) = refl
  tail-drop (suc n) [] = refl
  tail-drop (suc n) (x ∷ xs) = tail-drop n xs

  -- One round on a list that is long enough, and on one that is not.
  trimmed-eq :
      (m k : ℕ) (ys : List E)
      → k ≡ length ys - 1 - m
      → 0 < length ys
      → (if ltb m (length (drop k ys)) then tail (drop k ys) else drop k ys) ≡ last m ys
  trimmed-eq m k ys e h =
      rw (length-drop, tail-drop)
        (elim (Bool-cases (ltb m (length ys - k))) [
          | inl over ↦ rw over (ap (λ n. drop n ys) (over_lem over))
          | inr fits ↦ rw fits (ap (λ n. drop n ys) (fits_lem fits))
        ])
    where
      over_lem : ltb m (length ys - k) ≡ true → suc k ≡ length ys - m
      over_lem over = ground arith

      fits_lem : ltb m (length ys - k) ≡ false → k ≡ length ys - m
      fits_lem fits = ground arith

  log-last :
      (m : ℕ) (seen : List E) (e : E)
      → log (buffer m (last m seen)) e ≡ buffer m (last m (seen ++ e ∷ []))
  unfolding log
  log-last m seen e =
      let ys = seen ++ e ∷ [] in
      ap (buffer m) (
        rw (← drop-append (length seen - m) seen (e ∷ []) (omega arith)) (
          trimmed-eq m (length seen - m) ys (omega (arith, length-append seen (e ∷ [])))
            (omega (arith, length-append seen (e ∷ [])))))

  log_all-last :
      (m : ℕ) (seen es : List E)
      → log_all (buffer m (last m seen)) es ≡ buffer m (last m (seen ++ es))
  unfolding log_all
  log_all-last m seen [] = rw append-nil
  log_all-last m seen (e ∷ es) = rw (log-last m seen e) (
      log_all-last m (seen ++ e ∷ []) es
      ∙ ap (λ (l : List E). buffer m (last m l)) (append_assoc seen (e ∷ []) es))

-- After any sequence of entries a fresh logger holds the last `max_entries` of them, in order.
pub log_all-new_logger {ℓ} :
    {E : Type ℓ} (m : ℕ) (es : List E) → (log_all (new_logger m) es).entries ≡ last m es
log_all-new_logger {E} m es =
    ap (λ (l : AuditLogger E). l.entries)
      (ap (λ (xs : List E). log_all (buffer m xs) es) (sym (drop-nil (0 - m)))
        ∙ log_all-last m [] es)
