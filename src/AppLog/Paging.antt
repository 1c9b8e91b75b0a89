-- ===== src/AppLog/Paging.antt =====
-- Reading the log chunk by chunk.
use proxy_forge.Prelude.{
  ℕ, zero, suc, ◌+◌, ◌-◌, ◌≤◌, ◌<◌, ◌≡◌, refl, sym, ap, ◌∙◌, Bool, true, false, some, List, [], ◌∷◌,
  ◌++◌, append-nil, arith, ltb, if◌then◌else◌, length, take, drop, take-append-drop, length-take,
  length-drop, take_all, Bytes,
}
use proxy_forge.AppLog.{start_at, chunk_count, chunk_of, Chunk}

-- A caller that follows `next` while there is more, at most so many times.
unfoldable pub follow : ℕ → Bytes → Bytes → ℕ → ℕ → List Chunk
follow zero date content offset limit = []
follow (suc fuel) date content offset limit =
    let chunk = chunk_of date content (some offset) limit in
    let rest = follow fuel date content chunk.next limit in
    if chunk.more then chunk ∷ rest else chunk ∷ []

drop-nil : (n : ℕ) → drop {A = ℕ} n [] ≡ []
drop-nil zero = refl
drop-nil (suc n) = refl

drop-drop : (m n : ℕ) (s : Bytes) → drop n (drop m s) ≡ drop (m + n) s
drop-drop zero n s = ap (λ (k : ℕ). drop k s) (omega arith)
drop-drop (suc m) n [] = drop-nil n ∙ sym (drop-nil (suc m + n))
drop-drop (suc m) n (a ∷ s) =
    let e : suc (m + n) ≡ suc m + n = omega arith in
    drop-drop m n s ∙ ap (λ (k : ℕ). drop k (a ∷ s)) e

start_at_in : (offset size : ℕ) → offset ≤ size → start_at (some offset) size ≡ offset
unfolding start_at
start_at_in offset size h = ground (arith, h)

chunk_count_le : (limit remaining : ℕ) → chunk_count limit remaining ≤ remaining
unfolding chunk_count
chunk_count_le limit remaining = ground arith

chunk_count_pos : (limit remaining : ℕ) → 0 < remaining → 0 < chunk_count limit remaining
unfolding chunk_count
chunk_count_pos limit remaining h = ground (arith, h)

abbrev pub contents : List Chunk → Bytes
contents [] = []
contents (c ∷ chunks) = c.content ++ contents chunks

module _ (date content : Bytes) (limit : ℕ) where
  abbrev count_at : ℕ → ℕ
  count_at offset = chunk_count limit (length content - offset)

  length-chunk :
      (offset : ℕ) → length (take (count_at offset) (drop offset content)) ≡ count_at offset
  length-chunk offset = omega (
    arith,
    length-take (count_at offset) (drop offset content),
    length-drop offset content,
    chunk_count_le limit (length content - offset),
  )

  abbrev chunk_from : ℕ → ℕ → Chunk
  chunk_from start n = record {
    date = date;
    content = take (count_at start) (drop start content);
    next = start + n;
    more = ltb (start + n) (length content);
  }

  -- The chunk at an offset inside the file.
  chunk_of_lem :
      (offset : ℕ)
      → offset ≤ length content
      → chunk_of date content (some offset) limit ≡ record {
        date = date;
        content = take (count_at offset) (drop offset content);
        next = offset + count_at offset;
        more = ltb (offset + count_at offset) (length content);
      }
  unfolding chunk_of
  chunk_of_lem offset h =
      ap (λ (start : ℕ). chunk_from start (length (take (count_at start) (drop start content))))
        (start_at_in offset (length content) h)
      ∙ ap (λ (n : ℕ). chunk_from offset n) (length-chunk offset)

  -- A caller that reads the log from an offset in it, with any limit, and follows `next` as long as
  -- there is more, gets exactly the rest of the log, within one chunk more than bytes are left.
  pub contents-follow :
      (fuel offset : ℕ)
      → offset ≤ length content
      → length content - offset < fuel
      → contents (follow fuel date content offset limit) ≡ drop offset content
  unfolding follow
  contents-follow zero offset h f = absurd (omega arith)
  contents-follow (suc fuel) offset h f =
      ap
        (λ (c : Chunk).
          contents (if c.more then c ∷ follow fuel date content c.next limit else c ∷ []))
        (chunk_of_lem offset h)
      ∙ by_more (ltb (offset + count_at offset) (length content)) refl
          (contents-follow fuel (offset + count_at offset))
    where
      chunk : Bool → Chunk
      chunk b = record {
        date = date;
        content = take (count_at offset) (drop offset content);
        next = offset + count_at offset;
        more = b;
      }

      le : count_at offset ≤ length content - offset
      le = chunk_count_le limit (length content - offset)

      closer :
          offset + count_at offset < length content
          → length content - (offset + count_at offset) < fuel
      closer more =
          omega
            (arith, f, more, chunk_count_pos limit (length content - offset) (omega (arith, more)))

      by_more :
          (b : Bool)
          → ltb (offset + count_at offset) (length content) ≡ b
          → (offset + count_at offset ≤ length content
              → length content - (offset + count_at offset) < fuel
              → contents (follow fuel date content (offset + count_at offset) limit)
                ≡ drop (offset + count_at offset) content)
          → contents (
              if b
              then chunk b ∷ follow fuel date content (offset + count_at offset) limit
              else chunk b ∷ [])
            ≡ drop offset content
      by_more true e ih =
          ap (λ (l : Bytes). take (count_at offset) (drop offset content) ++ l)
            (ih (omega (arith, le, h)) (closer (ground (arith, e)))
              ∙ sym (drop-drop offset (count_at offset) content))
          ∙ take-append-drop (count_at offset) (drop offset content)
      by_more false e ih =
          let past : length content ≤ offset + count_at offset = ground (arith, e) in
          append-nil (take (count_at offset) (drop offset content))
          ∙ take_all (count_at offset) (drop offset content)
              (omega (arith, length-drop offset content, past))
