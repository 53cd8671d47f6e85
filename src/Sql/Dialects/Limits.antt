-- ===== src/Sql/Dialects/Limits.antt =====
-- The row window and the time buckets of the dialects.
use graphnight.Base.{ℕ, ◌≡◌, refl, ap, String, Option, none, some, ◌+s◌, show, contains_text}
use text.Mathlib.TextLemmas.{append_assoc, append-nil, nil-append}
use graphnight.Core.Models.{
  TimeGranularity, second, minute, hour, day, week, month, quarter, year, date_trunc_unit,
}
use graphnight.Sql.Dialects.{
  postgres, mysql, sqlite, duckdb, limit_offset, date_trunc, sqlite_format, limit_text, offset_text,
}

-- The clause of the SQL standard's order: the limit and then the offset.
abbrev pub window : Option ℕ → Option ℕ → String
window none none = ""
window (some lim) none = " LIMIT " +s show lim
window none (some off) = " OFFSET " +s show off
window (some lim) (some off) = " LIMIT " +s show lim +s " OFFSET " +s show off

window-eq : (limit offset : Option ℕ) → limit_text limit +s offset_text offset ≡ window limit offset
unfolding limit_text offset_text
window-eq none none = nil-append ""
window-eq none (some off) = nil-append (" OFFSET " +s show off)
window-eq (some lim) none = append-nil (" LIMIT " +s show lim)
window-eq (some lim) (some off) = append_assoc " LIMIT " (show lim) (" OFFSET " +s show off)

-- On PostgreSQL, SQLite and DuckDB a limit and an offset become `LIMIT limit OFFSET offset`, each
-- left out where it is absent. MySQL gets the same text with the two numbers exchanged where both
-- are present.
limit_offset-window :
    (sql : String) (limit offset : Option ℕ) (lim off : ℕ)
    → (limit_offset postgres sql limit offset ≡ sql +s window limit offset)
      × (limit_offset sqlite sql limit offset ≡ sql +s window limit offset)
      × (limit_offset duckdb sql limit offset ≡ sql +s window limit offset)
      × (limit_offset mysql sql (some lim) (some off) ≡ sql +s window (some off) (some lim))
unfolding limit_offset
limit_offset-window sql limit offset lim off = (
  ap (λ w. sql +s w) (window-eq limit offset),
  ap (λ w. sql +s w) (window-eq limit offset),
  ap (λ w. sql +s w) (window-eq limit offset),
  refl,
)

-- On SQLite the bucket of every granularity, the quarter included, is rendered by `strftime` with a
-- format: the branch for the quarter's arithmetic is not taken.
date_trunc-sqlite :
    (g : TimeGranularity) (column : String)
    → date_trunc sqlite (date_trunc_unit g) column
      ≡ "strftime('" +s sqlite_format (date_trunc_unit g) +s "', " +s column +s ")"
unfolding date_trunc date_trunc_unit contains_text
date_trunc-sqlite second column = refl
date_trunc-sqlite minute column = refl
date_trunc-sqlite hour column = refl
date_trunc-sqlite day column = refl
date_trunc-sqlite week column = refl
date_trunc-sqlite month column = refl
date_trunc-sqlite quarter column = refl
date_trunc-sqlite year column = refl
