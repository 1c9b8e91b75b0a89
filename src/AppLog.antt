-- ===== src/AppLog.antt =====
-- internal/applog/store.go: the log of the current day. The directory is the list of its files with
-- their contents; which of its calls fail is given. A path is the name in the directory.
pub mod Paging
pub mod Rotating
use proxy_forge.Prelude.{
  ℕ, ◌+◌, ◌-◌, ◌*◌, Bool, true, false, not, ◌&&◌, ◌||◌, Option, none, some, List, [], ◌∷◌, ◌++◌,
  ltb, ◌==◌, if◌then◌else◌, length, take, drop, Bytes, codes, str_eq, has_prefix, is_empty,
}
use proxy_forge.Prelude.Assoc.{bytes_key, lookup, insert}

abbrev pub file_prefix : Bytes
file_prefix = codes "proxyforge-"

abbrev pub log_suffix : Bytes
log_suffix = codes ".log"

pub record Chunk : Type 0 where
  pub date : Bytes
  pub content : Bytes
  pub next : ℕ
  pub more : Bool

-- `opened` says whether `file` is not nil; the open file is the one of `date`.
pub record LogStore : Type 0 where
  pub date : Bytes
  pub opened : Bool
  pub files : List (Bytes × Bytes)

-- Which calls of the system succeed: closing the file, listing the directory, removing a file (a
-- file that is gone counts as removed), and opening the new one.
pub record Answers : Type 0 where
  pub closes : Bool
  pub lists : Bool
  pub removes : Bytes → Bool
  pub opens : Bool

unfoldable pub log_name : Bytes → Bytes
log_name today = file_prefix ++ today ++ log_suffix

-- strings.HasSuffix
unfoldable pub has_suffix : Bytes → Bytes → Bool
has_suffix [] p = is_empty p
has_suffix (a ∷ s) p = str_eq (a ∷ s) p || has_suffix s p

unfoldable pub is_old : Bytes → Bytes → Bool
unfolding has_suffix
is_old current name =
    has_prefix name file_prefix && has_suffix name log_suffix && not (str_eq name current)

-- The loop ends with the first removal that fails.
unfoldable pub remove_old :
    (Bytes → Bool) → Bytes → List (Bytes × Bytes) → Bool × List (Bytes × Bytes)
unfolding is_old
remove_old removes current [] = (true, [])
remove_old removes current ((name, content) ∷ files) =
    let rest = remove_old removes current files in
    if not (is_old current name)
    then (rest.0, (name, content) ∷ rest.1)
    else if removes name
    then rest
    else (false, (name, content) ∷ files)

abbrev pub or_empty : Option Bytes → Bytes
or_empty none = []
or_empty (some content) = content

-- O_CREATE: an existing file is kept.
unfoldable pub open_log : Bytes → List (Bytes × Bytes) → List (Bytes × Bytes)
open_log name files = insert name (or_empty (lookup name files)) files

unfoldable pub rotate : Answers → Bytes → LogStore → Bool × LogStore
unfolding remove_old open_log log_name
rotate sys today s =
    let name = log_name today in
    let removed = remove_old sys.removes name s.files in
    let shut : LogStore = record s { opened = false } in
    let cleared : LogStore = record shut { files = removed.1 } in
    if s.opened && not sys.closes
    then (false, s)
    else if not sys.lists
    then (false, shut)
    else if not removed.0
    then (false, cleared)
    else if not sys.opens
    then (false, cleared)
    else (true, record { date = today; opened = true; files = open_log name removed.1 })

unfoldable pub ensure_current : Answers → Bytes → LogStore → Bool × LogStore
unfolding rotate
ensure_current sys today s =
    if s.opened && str_eq s.date today then (true, s) else rotate sys today s

-- The content of the open file.
unfoldable pub current_log : LogStore → Bytes
unfolding log_name
current_log s = or_empty (lookup (log_name s.date) s.files)

-- O_APPEND: the bytes go to the end. A write to the file is taken to succeed.
unfoldable pub append_log : Bytes → LogStore → LogStore
unfolding current_log log_name
append_log p s = record s { files = insert (log_name s.date) (current_log s ++ p) s.files }

unfoldable pub write_log : Answers → Bytes → Bytes → LogStore → Option ℕ × LogStore
unfolding ensure_current append_log
write_log sys today p s =
    let ready = ensure_current sys today s in
    if ready.0 then (some (length p), append_log p ready.1) else (none, ready.1)

abbrev pub default_limit : ℕ
default_limit = 256 * 1024

-- A negative offset is none, and a limit that is not positive is 0.
unfoldable pub start_at : Option ℕ → ℕ → ℕ
start_at none size = 0
start_at (some offset) size = if ltb size offset then 0 else offset

unfoldable pub chunk_count : ℕ → ℕ → ℕ
chunk_count limit remaining =
    let most = if limit == 0 then default_limit else limit in
    if ltb most remaining then most else remaining

unfoldable pub chunk_of : Bytes → Bytes → Option ℕ → ℕ → Chunk
unfolding start_at chunk_count
chunk_of date content offset limit =
    let size = length content in
    let start = start_at offset size in
    let buf = take (chunk_count limit (size - start)) (drop start content) in
    record {
      date = date;
      content = buf;
      next = start + length buf;
      more = ltb (start + length buf) size;
    }

unfoldable pub read_log : Answers → Bytes → Option ℕ → ℕ → LogStore → Option Chunk × LogStore
unfolding ensure_current chunk_of current_log
read_log sys today offset limit s =
    let ready = ensure_current sys today s in
    if ready.0
    then (some (chunk_of ready.1.date (current_log ready.1) offset limit), ready.1)
    else (none, ready.1)

unfoldable pub snapshot : Answers → Bytes → LogStore → Option (Bytes × Bytes) × LogStore
unfolding ensure_current current_log
snapshot sys today s =
    let ready = ensure_current sys today s in
    if ready.0 then (some (ready.1.date, current_log ready.1), ready.1) else (none, ready.1)
