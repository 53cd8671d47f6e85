-- ===== src/Tests/Storage.antt =====
-- The theorems about the storage of crates/graphnight-storage at concrete inputs.
use graphnight.Base.{
  ◌≡◌, refl, ap, String, Bool, true, false, not, ◌&&◌, ◌=ℕ=◌, Option, none, some, List, [], ◌∷◌,
  ◌++◌, Result, ok, err, ◌+s◌, ◌==◌, is_some, trim, trim-visible, is_whitespace, if◌then◌else◌,
  length, min,
}
use mathlib.Core.List.{Permᴰ}
use graphnight.Core.Models.{Model}
use graphnight.Runtime.Suggest.Scalars.{lower}
use graphnight.Storage.Backend.{StorageBackup, model_exists, model_not_found, io, SearchResult}
use graphnight.Storage.Table.{Table, find, find-insert, insert, fill}
use graphnight.Storage.Locks.{
  waiting, finished, new_lock, Locks, IsExclusive, with_write, with_read,
}
use graphnight.Storage.Files.{Host, Codec, Kind, load_file, create, persist}
use graphnight.Storage.Files.Ends.{Ends}
use graphnight.Storage.Files.Edits.{make, change, drop, edit, edit_all, meant_all, meant_replies}
use graphnight.Storage.Files.Refines.{MeantAll, edit_all-MeantAll}
use graphnight.Storage.Files.Synced.{IsReliable}
use graphnight.Storage.Files.Reload.{fresh, Loads, edit_all-Loads}
use graphnight.Storage.Search.{search_models, results_of}
use graphnight.Storage.Search.Ranked.{Descending, search_models-Descending}
use graphnight.Storage.Yaml.{YamlStorage, Libraries, new_storage, restore, model_kind}
use graphnight.Storage.Yaml.Calls.{perform, perform_all, create_model, search}
use graphnight.Storage.Yaml.Live.{Answered, perform_all-Answered}
use graphnight.Storage.Yaml.Stuck.{with_held_models, restore-waiting}

abbrev sales : Model
sales = record {
  name = "sales";
  datasource = "shop";
  description = some "Sales by day";
  measures = [];
  dimensions = [];
  time_dimensions = [];
  joins = [];
  sql = none;
  meta = [];
}

-- A disk that is a list of files.
abbrev read_file : Option String → Result String String
read_file none = err "no such file"
read_file (some text) = ok text

-- Locks as they are documented.
abbrev fair : Locks
fair = record {
  grants_read = λ n writing. not writing;
  grants_write = λ n writing. not writing && n =ℕ= 0;
}

fair-IsExclusive : IsExclusive fair
fair-IsExclusive = record {
  read_held = λ n. refl;
  read_free = refl;
  write_held = λ n. refl;
  write_free = refl;
}

abbrev files : Host (List (String × String))
files = record {
  locks = fair;
  path = λ base name. base +s "/" +s name;
  exists = λ p d. is_some (find d p);
  read_to_string = λ p d. read_file (find d p);
  write = λ p text d. (ok tt, insert p text d);
}

-- A format that prints every value alike and reads nothing.
abbrev opaque : {X : Type 0} → Codec X
opaque = record { print = λ x. ok "---"; parse = λ text. err "no value" }

abbrev saved_backup : StorageBackup
saved_backup = record {
  version = "1";
  created_at = 0;
  models = sales ∷ [];
  datasources = [];
  memories = [];
  datasource_priority = [];
}

abbrev libs : Libraries (List (String × String))
libs = record {
  host = files;
  models = opaque;
  datasources = opaque;
  memories = opaque;
  priority = opaque;
  backup = record { print = λ b. ok "{}"; parse = λ text. ok saved_backup };
  lowercase = lower;
}

abbrev empty : YamlStorage (List (String × String))
empty = new_storage "meta" (("b.json", "{}") ∷ [])

perform_all-Answered_example :
    Ends
      (Answered 3)
      (perform_all libs (create_model sales ∷ create_model sales ∷ search "day" 5 ∷ []) empty)
perform_all-Answered_example =
    perform_all-Answered libs (create_model sales ∷ create_model sales ∷ search "day" 5 ∷ []) empty
      fair-IsExclusive (refl, (refl, (refl, tt)))
      ((refl, refl), (refl, refl), (refl, refl), (refl, refl))

backup_read : find {V = String} (("b.json", "{}") ∷ []) "b.json" ≡ some "{}"
unfolding find
backup_read = refl

restore-waiting_example :
    (restore libs "b.json" empty ≡ waiting (with_held_models saved_backup empty))
    × (perform libs (create_model sales) (with_held_models saved_backup empty)
        ≡ waiting (with_held_models saved_backup empty))
restore-waiting_example =
    restore-waiting libs "b.json" "{}" saved_backup empty (create_model sales) fair-IsExclusive
      ((refl, refl), (refl, refl), (refl, refl), (refl, refl)) (ap read_file backup_read) refl refl
      refl

edit_all-MeantAll_example :
    Ends
      (MeantAll
        (meant_replies (model_kind libs) (make sales ∷ make sales ∷ []) (find []))
        (meant_all (model_kind libs) (make sales ∷ make sales ∷ []) (find [])))
      (edit_all files "models.yaml"
        (model_kind libs)
        (make sales ∷ make sales ∷ [])
        (record { lock = new_lock []; disk = [] }))
edit_all-MeantAll_example =
    edit_all-MeantAll files fair-IsExclusive "models.yaml" (model_kind libs)
      (make sales ∷ make sales ∷ []) (record { lock = new_lock []; disk = [] }) (refl, refl)

-- Two values with their names, in a file of one letter for each.
abbrev push : String → String → String
push String.[] s = s
push (String.◌∷◌ c rest) s = String.◌∷◌ c s

abbrev letters : List Bool → String
letters [] = ""
letters (true ∷ bs) = push "a" (letters bs)
letters (false ∷ bs) = push "b" (letters bs)

abbrev of_letters : String → List Bool
of_letters String.[] = []
of_letters (String.◌∷◌ c s) = (if String.◌∷◌ c "" == "a" then true else false) ∷ of_letters s

of_letters-letters : (bs : List Bool) → of_letters (letters bs) ≡ bs
of_letters-letters [] = refl
of_letters-letters (true ∷ bs) = ap (◌∷◌ true) (of_letters-letters bs)
of_letters-letters (false ∷ bs) = ap (◌∷◌ false) (of_letters-letters bs)

abbrev behind_dash : String → Result String (List Bool)
behind_dash String.[] = err "empty"
behind_dash (String.◌∷◌ c s) = ok (of_letters s)

abbrev flags : Kind Bool
flags = record {
  codec = record { print = λ bs. ok (push "-" (letters bs)); parse = behind_dash };
  name = λ b. if b then "on" else "off";
  exists = model_exists;
  not_found = model_not_found;
}

not_blank : (s : String) → (trim (push "-" s) == "") ≡ false
unfolding is_whitespace
not_blank s = trim-visible _ s refl

kept_file :
    (text : String) (d : Table String) → find (insert "flags.yaml" text d) "flags.yaml" ≡ some text
kept_file text d = rw (find-insert "flags.yaml" "flags.yaml" text d) refl

flags-IsReliable : IsReliable files "flags.yaml" flags.codec
flags-IsReliable = record {
  writes = λ text d. (
    insert "flags.yaml" text d,
    refl,
    ap is_some (kept_file text d),
    ap read_file (kept_file text d),
  );
  prints =
      λ bs. (push "-" (letters bs), refl, not_blank (letters bs), ap ok (of_letters-letters bs));
}

edit_all-Loads_example :
    Ends
      (λ r c.
        Ends
          (Loads files "flags.yaml" flags (
            meant_all flags
              (make true ∷ make false ∷ change "on" true ∷ drop is_some "off" ∷ [])
              (λ n. none)))
          (load_file files "flags.yaml" flags.codec
            (fill flags.name)
            (fresh files "flags.yaml" flags c.disk)))
      (edit_all files "flags.yaml" flags
        (make true ∷ make false ∷ change "on" true ∷ drop is_some "off" ∷ [])
        (fresh files "flags.yaml" flags []))
unfolding find
edit_all-Loads_example =
    edit_all-Loads files fair-IsExclusive "flags.yaml" flags
      (make true ∷ make false ∷ change "on" true ∷ drop is_some "off" ∷ []) [] flags-IsReliable
      (tt, (tt, (refl, (tt, tt)))) refl

search_models-Descending_example :
    (others : List SearchResult) × Permᴰ
      (search_models lower "day" 1 (sales ∷ sales ∷ []) ++ others)
      (results_of lower (lower "day") (sales ∷ sales ∷ []))
    × Descending (search_models lower "day" 1 (sales ∷ sales ∷ []) ++ others)
    × (length (search_models lower "day" 1 (sales ∷ sales ∷ []))
        ≡ min 1 (length (search_models lower "day" 1 (sales ∷ sales ∷ []) ++ others)))
search_models-Descending_example = search_models-Descending lower "day" 1 (sales ∷ sales ∷ [])

-- A model whose file cannot be written is answered with an error, and is in the map all the same: a second
-- attempt is refused because it exists.
abbrev full : Host (List (String × String))
full = record files { write = λ p text d. (err "disk full", d) }

retry_refused :
    edit_all full "models.yaml"
      (model_kind libs)
      (make sales ∷ make sales ∷ [])
      (record { lock = new_lock []; disk = [] })
    ≡ finished
        (ok (err (io "disk full") ∷ err (model_exists "sales") ∷ []))
        (record { lock = new_lock (("sales", sales) ∷ []); disk = [] })
unfolding edit_all edit create with_write with_read find persist insert
retry_refused = refl

-- A model that is updated to another name is found under the old one until the file is loaded.
renamed_in_file :
    find (fill (λ (m : Model). m.name) (record sales { name = "revenue" } ∷ []) []) "sales" ≡ none
unfolding find fill insert
renamed_in_file = refl
