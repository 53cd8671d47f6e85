-- ===== src/Storage/Files/Reload.antt =====
-- A map of yaml.rs that is written after each change and loaded again.
use graphnight.Base.{
  ◌≡◌, refl, sym, subst, ◌∙◌, String, false, Option, none, some, List, [], Result, ok, err, if_true,
  if_false, ◌==◌, trim, or_option, All,
}
use graphnight.Storage.Backend.{StorageError}
use graphnight.Storage.Table.{Table, find, table_values, fill, find-fill, Named}
use graphnight.Storage.Locks.{new_lock, Run, waiting, finished, Cell, IsExclusive, with_write-free}
use graphnight.Storage.Files.{Host, Kind, opened, parsed, load_file}
use graphnight.Storage.Files.Ends.{Ends}
use graphnight.Storage.Files.Edits.{Edit, meant_all, edit_all}
use graphnight.Storage.Files.Refines.{MeantAll, edit_all-MeantAll}
use graphnight.Storage.Files.Synced.{
  IsReliable, IsOwn, OnDisk, no_file, in_file, Synced, edit_all-Synced,
}

module _ {D V : Type 0} (host : Host D) (path : String) (kind : Kind V) where
  -- A new storage on a disk.
  abbrev pub fresh : D → Cell (Table V) D
  fresh d = record { lock = new_lock []; disk = d }

  abbrev pub Loads : (String → Option V) → Result StorageError Unit → Cell (Table V) D → Type 0
  Loads m r c = (r ≡ ok tt) × (find c.lock.content ≡ m)

  find-fill_empty :
      (t : Table V) → Named kind.name t → find (fill kind.name (table_values t) []) ≡ find t
  unfolding find
  find-fill_empty t n i k = (find-fill kind.name k t [] n ∙ or_none (find t k)) i
    where
      or_none : (o : Option V) → or_option o none ≡ o
      or_none none = refl
      or_none (some v) = refl

  module _ (laws : IsExclusive host.locks) where
    parsed-Loads :
        (t : Table V) (d : D)
        → Named kind.name t
        → Ends (Loads (find t)) (parsed host path (fill kind.name) (ok (table_values t)) (fresh d))
    unfolding parsed
    parsed-Loads t d n =
        subst (Ends (Loads (find t))) (sym (with_write-free host.locks (fresh d) _ laws refl refl))
          (refl, find-fill_empty t n)

    load_file-Loads :
        (t : Table V) (d : D)
        → Named kind.name t
        → OnDisk host path kind t d
        → Ends (Loads (find t)) (load_file host path kind.codec (fill kind.name) (fresh d))
    unfolding load_file opened
    load_file-Loads t d n (no_file x) =
        if_false (Ends (Loads _)) (host.exists path d) _ _ x (refl, refl)
    load_file-Loads t d n (in_file text x r b p) =
        if_true (Ends (Loads (find t))) (host.exists path d) _ _ x (
          rw r
            (if_false (Ends (Loads (find t))) (trim text == "") _ _ b (rw p (parsed-Loads t d n))))

  both :
      {A : Type 0} (P Q : Result StorageError A → Cell (Table V) D → Type 0)
      (run : Run (Cell (Table V) D) A)
      → Ends P run
      → Ends Q run
      → Ends (λ r c. P r c × Q r c) run
  both P Q (waiting c) p q = p
  both P Q (finished r c) p q = (p, q)

  weaken :
      {A : Type 0} (P Q : Result StorageError A → Cell (Table V) D → Type 0)
      (run : Run (Cell (Table V) D) A)
      → ((r : Result StorageError A) (c : Cell (Table V) D) → P r c → Q r c)
      → Ends P run
      → Ends Q run
  weaken P Q (waiting c) f p = p
  weaken P Q (finished r c) f p = f r c p

module _ {D V : Type 0} (host : Host D) (laws : IsExclusive host.locks) (path : String)
    (kind : Kind V) where
  MeantAll-Loads :
      {A : Type 0} (want : List (Result StorageError A)) (m : String → Option V)
      (r : Result StorageError (List (Result StorageError A))) (c : Cell (Table V) D)
      → MeantAll want m r c × Synced host path kind r c
      → Ends
          (Loads host path kind m)
          (load_file host path kind.codec (fill kind.name) (fresh host path kind c.disk))
  MeantAll-Loads want m (ok rs) c ((w, f, e), s) =
      subst
        (λ x.
          Ends (Loads host path kind x)
            (load_file host path kind.codec (fill kind.name) (fresh host path kind c.disk)))
        e (load_file-Loads host path kind laws c.lock.content c.disk s.1 s.2)
  MeantAll-Loads want m (err e) c (w, s) = elim w [ ]

-- Changes that leave each value under its own name, made to an empty map that has no file, end with a file
-- from which a new storage loads what the changes are meant to leave under each name, if the disk and the
-- format are reliable.
pub edit_all-Loads :
    {D V : Type 0} (host : Host D) (laws : IsExclusive host.locks) (path : String) (kind : Kind V)
    (es : List (Edit V)) (d : D)
    → IsReliable host path kind.codec
    → All (IsOwn kind.name) es
    → host.exists path d ≡ false
    → Ends
        (λ r c.
          Ends
            (Loads host path kind (meant_all kind es (λ n. none)))
            (load_file host path kind.codec (fill kind.name) (fresh host path kind c.disk)))
        (edit_all host path kind es (fresh host path kind d))
unfolding find Named
edit_all-Loads host laws path kind es d reliable own x =
    let start = fresh host path kind d in
    weaken host path kind _ _ (edit_all host path kind es start)
      (MeantAll-Loads host laws path kind _ _)
      (both host path kind _ (Synced host path kind) _
        (edit_all-MeantAll host laws path kind es start (refl, refl))
        (edit_all-Synced host path kind laws reliable es start own (refl, refl) tt (no_file x)))
