-- ===== src/Storage/Files/Refines.antt =====
-- What the changes of one map of yaml.rs do to what is found under each name.
use graphnight.Base.{
  ◌≡◌, refl, ap, sym, subst, String, Bool, true, false, List, [], ◌∷◌, Result, ok, err,
  if◌then◌else◌,
}
use graphnight.Storage.Backend.{StorageError, io, yaml_serialization}
use graphnight.Storage.Table.{Table, find, insert, remove, table_values, find-insert, find-remove}
use graphnight.Storage.Locks.{
  Run, waiting, finished, ◌then◌, settled, Cell, IsExclusive, with_write, with_write-free,
}
use graphnight.Storage.Files.{
  Host, Kind, wrote, written, saved, created, create, updated, update, deleted, delete, save,
}
use graphnight.Storage.Files.Ends.{Ends, FreeCell, persist-free}
use graphnight.Storage.Files.Edits.{
  Edit, make, change, drop, store, value, was_there, Found, put, cut, mapped, meant_reply,
  meant_state, meant_all, meant_replies, reply, edit, edit_all,
}

-- The answer is the one that is meant, or the file could not be written.
pub data Reported {A : Type 0} : Result StorageError A → Result StorageError A → Type 0 where
  as_meant : {r : Result StorageError A} → Reported r r
  not_written : {e : String} {a : A} → Reported (err (io e)) (ok a)
  not_printed : {e : String} {a : A} → Reported (err (yaml_serialization e)) (ok a)

-- A change ends as it is meant: with its answer, its map and the guard dropped.
abbrev pub Meant :
    {A V D : Type 0}
    → Result StorageError A
    → Found V
    → Result StorageError A
    → Cell (Table V) D
    → Type 0
Meant want m r c = Reported r want × FreeCell c × (find c.lock.content ≡ m)

reply-Meant :
    {A B V D : Type 0} (f : A → B) (want : Result StorageError A) (m : Found V)
    (run : Run (Cell (Table V) D) A)
    → Ends (Meant want m) run
    → Ends (Meant (mapped f want) m) (reply f run)
reply-Meant f want m (waiting c) h = h
reply-Meant f (ok a) m (finished r c) (as_meant, h, k) = (as_meant, h, k)
reply-Meant f (err e) m (finished r c) (as_meant, h, k) = (as_meant, h, k)
reply-Meant f want m (finished r c) (not_written, h, k) = (not_written, h, k)
reply-Meant f want m (finished r c) (not_printed, h, k) = (not_printed, h, k)

module _ {D V : Type 0} (host : Host D) (laws : IsExclusive host.locks) (path : String)
    (kind : Kind V) where
  module _ {A : Type 0} (a : A) (t : Table V) where
    wrote-Meant :
        (w : Result String Unit × D) (c : Cell (Table V) D)
        → FreeCell c
        → c.lock.content ≡ t
        → Ends (Meant (ok a) (find t)) (wrote host path w c then λ u c. finished (ok a) c)
    unfolding wrote
    wrote-Meant (ok u, d) c h e = (as_meant, h, ap find e)
    wrote-Meant (err x, d) c h e = (not_written, h, ap find e)

    written-Meant :
        (text : Result String String) (c : Cell (Table V) D)
        → FreeCell c
        → c.lock.content ≡ t
        → Ends (Meant (ok a) (find t)) (written host path text c then λ u c. finished (ok a) c)
    unfolding written
    written-Meant (ok text) c h e = wrote-Meant (host.write path text c.disk) c h e
    written-Meant (err x) c h e = (not_printed, h, ap find e)

    saved-Meant :
        (c : Cell (Table V) D)
        → c.lock.readers ≡ 0
        → Ends (Meant (ok a) (find t)) (saved host path kind a t c)
    saved-Meant c h =
        subst (λ run. Ends (Meant (ok a) (find t)) (run then λ u c. finished (ok a) c))
          (sym (persist-free host laws path kind.codec table_values _ (refl, h)))
          (written-Meant (kind.codec.print (table_values t)) _ (refl, h) refl)

  put-Meant :
      {A : Type 0} (a : A) (k : String) (v : V) (c : Cell (Table V) D)
      → c.lock.readers ≡ 0
      → Ends
          (Meant (ok a) (put k v (find c.lock.content)))
          (saved host path kind a (insert k v c.lock.content) c)
  put-Meant a k v c h =
      subst (λ m. Ends (Meant (ok a) m) (saved host path kind a (insert k v c.lock.content) c))
        (λ i n. find-insert k n v c.lock.content i) (saved-Meant a _ c h)

  created-Meant :
      (b : Bool) (v : V) (c : Cell (Table V) D)
      → c.lock.readers ≡ 0
      → let m = find c.lock.content in
        Ends
          (Meant
            (if b then err (kind.exists (kind.name v)) else ok v)
            (if b then m else put (kind.name v) v m))
          (created host path kind b v c)
  unfolding created
  created-Meant true v c h = (as_meant, (refl, h), refl)
  created-Meant false v c h = put-Meant v (kind.name v) v c h

  updated-Meant :
      (b : Bool) (n : String) (v : V) (c : Cell (Table V) D)
      → c.lock.readers ≡ 0
      → let m = find c.lock.content in
        Ends
          (Meant (if b then ok v else err (kind.not_found n)) (if b then put n v m else m))
          (updated host path kind b n v c)
  unfolding updated
  updated-Meant true n v c h = put-Meant v n v c h
  updated-Meant false n v c h = (as_meant, (refl, h), refl)

  deleted-Meant :
      (b : Bool) (n : String) (c : Cell (Table V) D)
      → c.lock.readers ≡ 0
      → let m = find c.lock.content in
        Ends (Meant (ok b) (if b then cut n m else m)) (deleted host path kind b n c)
  unfolding deleted
  deleted-Meant true n c h =
      subst (λ m. Ends (Meant (ok true) m) (saved host path kind true (remove n c.lock.content) c))
        (λ i k. find-remove n k c.lock.content i) (saved-Meant true _ c h)
  deleted-Meant false n c h = (as_meant, (refl, h), refl)

  pub with_write-Ends :
      {A : Type 0} (P : Result StorageError A → Cell (Table V) D → Type 0) (c : Cell (Table V) D)
      (next : Cell (Table V) D → Run (Cell (Table V) D) A)
      → FreeCell c
      → Ends P (next (record c { lock = record c.lock { writing = true } }))
      → Ends P (with_write host.locks c next)
  with_write-Ends P c next h k = rw (with_write-free host.locks c next laws h.0 h.1) k

  edit-Meant :
      (e : Edit V) (c : Cell (Table V) D)
      → FreeCell c
      → let m = find c.lock.content in
        Ends (Meant (meant_reply kind e m) (meant_state kind e m)) (edit host path kind e c)
  unfolding edit create update delete save
  edit-Meant (make v) c h =
      reply-Meant value _ _ _ (with_write-Ends _ c _ h (created-Meant _ v _ h.1))
  edit-Meant (change n v) c h =
      reply-Meant value _ _ _ (with_write-Ends _ c _ h (updated-Meant _ n v _ h.1))
  edit-Meant (drop test n) c h =
      reply-Meant was_there (ok _) _ _ (with_write-Ends _ c _ h (deleted-Meant _ n _ h.1))
  edit-Meant (store v) c h = reply-Meant value (ok v) _ _ (
      with_write-Ends _ c _ h
        (put-Meant v (kind.name v) v (record c { lock = record c.lock { writing = true } }) h.1))

-- As many answers as are meant, each reported.
abbrev pub Reports :
    {A : Type 0} → List (Result StorageError A) → List (Result StorageError A) → Type 0
Reports [] [] = Unit
Reports (r ∷ rs) (w ∷ ws) = Reported r w × Reports rs ws
Reports [] (w ∷ ws) = ⊥
Reports (r ∷ rs) [] = ⊥

abbrev pub MeantAll :
    {A V D : Type 0}
    → List (Result StorageError A)
    → Found V
    → Result StorageError (List (Result StorageError A))
    → Cell (Table V) D
    → Type 0
MeantAll want m (ok rs) c = Reports rs want × FreeCell c × (find c.lock.content ≡ m)
MeantAll want m (err e) c = ⊥

pub settled-Ends :
    {S A B : Type 0} (P : Result StorageError A → S → Type 0)
    (Q : Result StorageError B → S → Type 0) (run : Run S A)
    (next : Result StorageError A → S → Run S B)
    → Ends P run
    → ((r : Result StorageError A) (s : S) → P r s → Ends Q (next r s))
    → Ends Q (settled run next)
settled-Ends P Q (waiting s) next h k = elim h [ ]
settled-Ends P Q (finished r s) next h k = k r s h

one_more :
    {A V D : Type 0} (r w : Result StorageError A) (want : List (Result StorageError A))
    (m : Found V) (run : Run (Cell (Table V) D) (List (Result StorageError A)))
    → Reported r w
    → Ends (MeantAll want m) run
    → Ends (MeantAll (w ∷ want) m) (run then λ rs c. finished (ok (r ∷ rs)) c)
one_more r w want m (waiting c) p h = h
one_more r w want m (finished (ok rs) c) p (q, h, k) = ((p, q), h, k)
one_more r w want m (finished (err e) c) p h = h

-- Changes of a map, one behind the other, do what they are meant to do to what is found under each name,
-- and each answers what it is meant to, or that its file could not be written, if the lock is free at
-- first.
pub edit_all-MeantAll :
    {D V : Type 0} (host : Host D) (laws : IsExclusive host.locks) (path : String) (kind : Kind V)
    (es : List (Edit V)) (c : Cell (Table V) D)
    → FreeCell c
    → Ends
        (MeantAll
          (meant_replies kind es (find c.lock.content))
          (meant_all kind es (find c.lock.content)))
        (edit_all host path kind es c)
unfolding edit_all
edit_all-MeantAll host laws path kind [] c h = (tt, h, refl)
edit_all-MeantAll host laws path kind (e ∷ es) c h =
    settled-Ends _ _ (edit host path kind e c) _ (edit-Meant host laws path kind e c h) (λ r c' k.
      one_more r _ _ _ _ k.0 (
        subst
          (λ m.
            Ends (MeantAll (meant_replies kind es m) (meant_all kind es m))
              (edit_all host path kind es c'))
          k.2 (edit_all-MeantAll host laws path kind es c' k.1)))
