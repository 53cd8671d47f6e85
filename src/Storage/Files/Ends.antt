-- ===== src/Storage/Files/Ends.antt =====
-- The operations on one map of yaml.rs end, with every guard dropped.
use graphnight.Base.{
  ◌≡◌, refl, String, Bool, true, false, Option, Result, ok, err, if◌then◌else◌, trim, ◌==◌,
}
use graphnight.Storage.Backend.{StorageError}
use graphnight.Storage.Table.{Table}
use graphnight.Storage.Locks.{
  RwLock, Run, waiting, finished, ◌then◌, Cell, Locks, IsExclusive, with_read, with_write,
  with_read-free, with_write-free,
}
use graphnight.Storage.Files.{
  Host, Codec, Kind, wrote, written, persist, parsed, opened, load_file, saved, created, create,
  updated, update, deleted, delete, save,
}

-- The task ends, with a result and a state that have a property.
abbrev pub Ends : {S A : Type 0} → (Result StorageError A → S → Type 0) → Run S A → Type 0
Ends P (waiting s) = ⊥
Ends P (finished r s) = P r s

-- The task ends in a state that has a property.
pub data EndsIn {S A : Type 0} (F : S → Type 0) : Run S A → Type 0 where
  ended : {r : Result StorageError A} {s : S} → F s → EndsIn F (finished r s)

abbrev pub FreeLock : {V : Type 0} → RwLock V → Type 0
FreeLock l = (l.writing ≡ false) × (l.readers ≡ 0)

abbrev pub FreeCell : {V D : Type 0} → Cell V D → Type 0
FreeCell c = FreeLock c.lock

pub then-EndsIn :
    {S A B : Type 0} (F : S → Type 0) (run : Run S A) (next : A → S → Run S B)
    → EndsIn F run
    → ((a : A) (s : S) → F s → EndsIn F (next a s))
    → EndsIn F (run then next)
then-EndsIn F (waiting s) next h k = elim h [ ]
then-EndsIn F (finished (ok a) s) next (ended h) k = k a s h
then-EndsIn F (finished (err e) s) next (ended h) k = ended h

if-EndsIn :
    {S A : Type 0} (F : S → Type 0) (b : Bool) (x y : Run S A)
    → EndsIn F x
    → EndsIn F y
    → EndsIn F (if b then x else y)
if-EndsIn F true x y h k = h
if-EndsIn F false x y h k = k

module _ {V D A : Type 0} (locks : Locks) (laws : IsExclusive locks) (c : Cell V D)
    (next : Cell V D → Run (Cell V D) A) (free : FreeCell c) where
  pub with_read-EndsIn : EndsIn FreeCell (next c) → EndsIn FreeCell (with_read locks c next)
  with_read-EndsIn h = rw (with_read-free locks c next laws free.0 free.1) h

  pub with_write-EndsIn :
      EndsIn FreeCell (next (record c { lock = record c.lock { writing = true } }))
      → EndsIn FreeCell (with_write locks c next)
  with_write-EndsIn h = rw (with_write-free locks c next laws free.0 free.1) h

module _ {D : Type 0} (host : Host D) (laws : IsExclusive host.locks) (path : String) where
  wrote-EndsIn :
      {V : Type 0} (w : Result String Unit × D) (c : Cell V D)
      → FreeCell c
      → EndsIn FreeCell (wrote host path w c)
  unfolding wrote
  wrote-EndsIn (ok u, d) c h = ended h
  wrote-EndsIn (err e, d) c h = ended h

  written-EndsIn :
      {V : Type 0} (text : Result String String) (c : Cell V D)
      → FreeCell c
      → EndsIn FreeCell (written host path text c)
  unfolding written
  written-EndsIn (ok text) c h = wrote-EndsIn (host.write path text c.disk) c h
  written-EndsIn (err e) c h = ended h

  pub persist-free :
      {V X : Type 0} (codec : Codec X) (shown : V → X) (c : Cell V D)
      → FreeCell c
      → persist host path codec shown c ≡ written host path (codec.print (shown c.lock.content)) c
  unfolding persist
  persist-free codec shown c h = with_read-free host.locks c _ laws h.0 h.1

  pub persist-EndsIn :
      {V X : Type 0} (codec : Codec X) (shown : V → X) (c : Cell V D)
      → FreeCell c
      → EndsIn FreeCell (persist host path codec shown c)
  persist-EndsIn codec shown c h =
      rw (persist-free codec shown c h) (written-EndsIn (codec.print (shown c.lock.content)) c h)

  parsed-EndsIn :
      {V X : Type 0} (store : X → V → V) (r : Result String X) (c : Cell V D)
      → FreeCell c
      → EndsIn FreeCell (parsed host path store r c)
  unfolding parsed
  parsed-EndsIn store (ok x) c h = with_write-EndsIn host.locks laws c _ h (ended (refl, h.1))
  parsed-EndsIn store (err e) c h = ended h

  opened-EndsIn :
      {V X : Type 0} (codec : Codec X) (store : X → V → V) (r : Result String String) (c : Cell V D)
      → FreeCell c
      → EndsIn FreeCell (opened host path codec store r c)
  unfolding opened
  opened-EndsIn codec store (ok text) c h =
      if-EndsIn FreeCell (trim text == "") _ _ (ended h)
        (parsed-EndsIn store (codec.parse text) c h)
  opened-EndsIn codec store (err e) c h = ended h

  pub load_file-EndsIn :
      {V X : Type 0} (codec : Codec X) (store : X → V → V) (c : Cell V D)
      → FreeCell c
      → EndsIn FreeCell (load_file host path codec store c)
  unfolding load_file
  load_file-EndsIn codec store c h =
      if-EndsIn FreeCell (host.exists path c.disk) _ _
        (opened-EndsIn codec store (host.read_to_string path c.disk) c h) (ended h)

  module _ {V : Type 0} (kind : Kind V) where
    saved-EndsIn :
        {A : Type 0} (a : A) (t : Table V) (c : Cell (Table V) D)
        → c.lock.readers ≡ 0
        → EndsIn FreeCell (saved host path kind a t c)
    saved-EndsIn a t c h =
        then-EndsIn FreeCell _ _ (persist-EndsIn kind.codec _ _ (refl, h)) (λ u s k. ended k)

    created-EndsIn :
        (b : Bool) (v : V) (c : Cell (Table V) D)
        → c.lock.readers ≡ 0
        → EndsIn FreeCell (created host path kind b v c)
    unfolding created
    created-EndsIn true v c h = ended (refl, h)
    created-EndsIn false v c h = saved-EndsIn v _ c h

    updated-EndsIn :
        (b : Bool) (n : String) (v : V) (c : Cell (Table V) D)
        → c.lock.readers ≡ 0
        → EndsIn FreeCell (updated host path kind b n v c)
    unfolding updated
    updated-EndsIn false n v c h = ended (refl, h)
    updated-EndsIn true n v c h = saved-EndsIn v _ c h

    deleted-EndsIn :
        (b : Bool) (n : String) (c : Cell (Table V) D)
        → c.lock.readers ≡ 0
        → EndsIn FreeCell (deleted host path kind b n c)
    unfolding deleted
    deleted-EndsIn false n c h = ended (refl, h)
    deleted-EndsIn true n c h = saved-EndsIn true _ c h

    module _ (c : Cell (Table V) D) (free : FreeCell c) where
      pub create-EndsIn : (v : V) → EndsIn FreeCell (create host path kind v c)
      unfolding create
      create-EndsIn v = with_write-EndsIn host.locks laws c _ free (created-EndsIn _ v _ free.1)

      pub update-EndsIn : (n : String) (v : V) → EndsIn FreeCell (update host path kind n v c)
      unfolding update
      update-EndsIn n v = with_write-EndsIn host.locks laws c _ free (updated-EndsIn _ n v _ free.1)

      pub delete-EndsIn :
          (test : Option V → Bool) (n : String) → EndsIn FreeCell (delete host path kind test n c)
      unfolding delete
      delete-EndsIn test n =
          with_write-EndsIn host.locks laws c _ free (deleted-EndsIn _ n _ free.1)

      pub save-EndsIn : (v : V) → EndsIn FreeCell (save host path kind v c)
      unfolding save
      save-EndsIn v =
          with_write-EndsIn host.locks laws c _ free
            (saved-EndsIn v _ (record c { lock = record c.lock { writing = true } }) free.1)
