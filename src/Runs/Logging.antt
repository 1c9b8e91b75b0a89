-- ===== src/Runs/Logging.antt =====
-- Runs of the application log.
use proxy_forge.Prelude.{◌≡◌, refl, true, some, [], ◌∷◌, arith, codes, str_eq, has_prefix, is_empty}
use proxy_forge.Prelude.Assoc.{bytes_key, lookup}
use proxy_forge.AppLog.{
  log_name, has_suffix, is_old, remove_old, rotate, ensure_current, LogStore, Answers,
}
use proxy_forge.AppLog.Paging.{follow, contents, contents-follow}
use proxy_forge.AppLog.Rotating.{ensure_current_files}

contents-follow_example : contents (follow 6 (codes "d") (codes "hello") 0 2) ≡ codes "hello"
contents-follow_example =
    contents-follow (codes "d") (codes "hello") 2 6 0 (omega arith) (omega arith)

abbrev answers : Answers
answers = record { closes = true; lists = true; removes = λ name. true; opens = true }

-- The log of the first is open on the second.
abbrev yesterday : LogStore
yesterday = record {
  date = codes "2025-05-01";
  opened = true;
  files = (codes "proxyforge-2025-05-01.log", codes "x") ∷ (codes "notes.txt", codes "y") ∷ [];
}

ensure_current_files_example :
    lookup (codes "notes.txt") (ensure_current answers (codes "2025-05-02") yesterday).1.files
    ≡ some (codes "y")
unfolding ensure_current rotate remove_old is_old log_name has_prefix has_suffix str_eq lookup
    is_empty
ensure_current_files_example =
    ensure_current_files answers (codes "2025-05-02") (codes "notes.txt") yesterday refl refl
