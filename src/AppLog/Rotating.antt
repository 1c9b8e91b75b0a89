-- ===== src/AppLog/Rotating.antt =====
-- The change of day.
use mathlib.Core.Path.{ap₂}
use proxy_forge.Prelude.{
  ◌≡◌, refl, sym, ap, ◌∙◌, Bool, true, false, not, ◌&&◌, Option, none, some, List, [], ◌∷◌,
  if◌then◌else◌, Bytes, str_eq, str_eq_iff,
}
use proxy_forge.Prelude.Assoc.{bytes_key, lookup, lookup-insert}
use proxy_forge.AppLog.{
  log_name, is_old, remove_old, or_empty, open_log, rotate, ensure_current, LogStore, Answers,
}

-- The content of a file that is not an old log.
abbrev pub kept_file : Bytes → Bytes → List (Bytes × Bytes) → Option Bytes
kept_file current name files = if is_old current name then none else lookup name files

module _ (removes : Bytes → Bool) (current name : Bytes) where
  remove_old-lookup :
      (files : List (Bytes × Bytes))
      → (remove_old removes current files).0 ≡ true
      → lookup name (remove_old removes current files).1 ≡ kept_file current name files
  unfolding remove_old lookup
  remove_old-lookup [] ok = go (is_old current name)
    where
      go : (b : Bool) → let x : Option Bytes = none in x ≡ (if b then none else none)
      go true = refl
      go false = refl
  remove_old-lookup ((k, content) ∷ files) ok =
      go (is_old current k) refl (removes k) (str_eq k name) refl (remove_old removes current files)
        (remove_old-lookup files) ok
    where
      moved : str_eq k name ≡ true → is_old current name ≡ is_old current k
      moved f = ap (λ (x : Bytes). is_old current x) (sym ((str_eq_iff k name).0 f))

      go :
          (b : Bool)
          → is_old current k ≡ b
          → (c d : Bool) → str_eq k name ≡ d
          → (rest : Bool × List (Bytes × Bytes))
          → (rest.0 ≡ true → lookup name rest.1 ≡ kept_file current name files)
          → let x : Bool × List (Bytes × Bytes) =
              if not b
              then (rest.0, (k, content) ∷ rest.1)
              else if c
              then rest
              else (false, (k, content) ∷ files) in
            x.0 ≡ true
            → lookup name x.1 ≡ (
                if is_old current name then none else if d then some content else lookup name files)
      go false e c true f rest ih ok = rw (f, moved f ∙ e) refl
      go false e c false f rest ih ok = rw f (ih ok)
      go true e true true f rest ih ok = ih ok ∙ (rw (moved f ∙ e) refl)
      go true e true false f rest ih ok = ih ok
      go true e false d f rest ih ok = cc ok

-- A write, read or snapshot that finds another day than that of the open log, or none open, and
-- succeeds in changing to it, leaves in the directory: the log of the day, with the content that it
-- had if it was there and empty otherwise; no other log file; and every other file as it was.
pub ensure_current_files :
    (sys : Answers) (today name : Bytes) (s : LogStore)
    → (s.opened && str_eq s.date today) ≡ false
    → (ensure_current sys today s).0 ≡ true
    → lookup name (ensure_current sys today s).1.files ≡ (
        if str_eq (log_name today) name
        then some (or_empty (kept_file (log_name today) (log_name today) s.files))
        else kept_file (log_name today) name s.files)
unfolding ensure_current rotate open_log
ensure_current_files sys today name s stale ok = by_day (s.opened && str_eq s.date today) stale ok
  where
    current : Bytes
    current = log_name today

    removed : Bool × List (Bytes × Bytes)
    removed = remove_old sys.removes current s.files

    shut : LogStore
    shut = record s { opened = false }

    fresh : LogStore
    fresh = record { date = today; opened = true; files = open_log current removed.1 }

    wanted : Option Bytes
    wanted =
        if str_eq current name
        then some (or_empty (kept_file current current s.files))
        else kept_file current name s.files

    rotated : Bool → Bool → Bool → Bool → Bool × LogStore
    rotated a b c d =
        if a
        then (false, s)
        else if not b
        then (false, shut)
        else if not c
        then (false, record shut { files = removed.1 })
        else if not d
        then (false, record shut { files = removed.1 })
        else (true, fresh)

    opened_files : removed.0 ≡ true → lookup name fresh.files ≡ wanted
    opened_files h =
        lookup-insert current name (or_empty (lookup current removed.1)) removed.1
        ∙ ap₂ (λ (x y : Option Bytes). if str_eq current name then some (or_empty x) else y)
            (remove_old-lookup sys.removes current current s.files h)
            (remove_old-lookup sys.removes current name s.files h)

    by_answers :
        (a b c d : Bool)
        → removed.0 ≡ c
        → (rotated a b c d).0 ≡ true
        → lookup name (rotated a b c d).1.files ≡ wanted
    by_answers true b c d e ok = cc ok
    by_answers false false c d e ok = cc ok
    by_answers false true false d e ok = cc ok
    by_answers false true true false e ok = cc ok
    by_answers false true true true e ok = opened_files e

    by_day :
        (b : Bool)
        → b ≡ false
        → (if b then (true, s) else rotate sys today s).0 ≡ true
        → lookup name (if b then (true, s) else rotate sys today s).1.files ≡ wanted
    by_day true e ok = cc e
    by_day false e ok =
        by_answers (s.opened && not sys.closes) sys.lists removed.0 sys.opens refl ok
