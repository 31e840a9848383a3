-- ===== src/Agent/Scrollback/Window.antt =====
-- What the scrollback keeps and what it replays.
use wisp_shell.Prelude.{
  ℕ, zero, suc, ◌+◌, ◌-◌, ◌≡◌, ◌≤◌, ◌<◌, refl, List, [], ◌∷◌, ◌++◌, length, drop, arith,
  length-append, append-nil, append_assoc,
}
use wisp_shell.Agent.Scrollback.{reverse, select_newest, replay_scrollback}

-- The bytes of the chunks, one after the other.
unfoldable pub concat : List (List ℕ) → List ℕ
concat [] = []
concat (c ∷ cs) = c ++ concat cs

-- The same, of chunks that stand newest first.
concat_older : List (List ℕ) → List ℕ
concat_older [] = []
concat_older (c ∷ older) = concat_older older ++ c

pub concat-append : (us vs : List (List ℕ)) → concat (us ++ vs) ≡ concat us ++ concat vs
unfolding concat
concat-append [] vs = refl
concat-append (a ∷ us) vs = rw (concat-append us vs, append_assoc)

concat_older-append :
    (us vs : List (List ℕ)) → concat_older (us ++ vs) ≡ concat_older vs ++ concat_older us
unfolding concat_older
concat_older-append [] vs = rw append-nil
concat_older-append (a ∷ us) vs = rw (concat_older-append us vs, append_assoc)

concat_older-reverse : (ring : List (List ℕ)) → concat_older (reverse ring) ≡ concat ring
unfolding concat_older reverse concat
concat_older-reverse [] = refl
concat_older-reverse (c ∷ ring) =
    rw (concat_older-append (reverse ring) (c ∷ []), concat_older-reverse ring)

drop_all : (n : ℕ) (xs : List ℕ) → length xs ≤ n → drop n xs ≡ []
drop_all zero [] h = refl
drop_all zero (x ∷ xs) h = absurd (omega arith)
drop_all (suc n) [] h = refl
drop_all (suc n) (x ∷ xs) h = drop_all n xs (omega arith)

-- Dropping from two lists in a row.
drop-append_split :
    (n : ℕ) (xs ys : List ℕ) → drop n (xs ++ ys) ≡ drop n xs ++ drop (n - length xs) ys
drop-append_split zero [] ys = refl
drop-append_split zero (x ∷ xs) ys = ground arith
drop-append_split (suc n) [] ys = ground arith
drop-append_split (suc n) (x ∷ xs) ys =
    let e : suc n - suc (length xs) ≡ n - length xs = omega arith in
    rw e (drop-append_split n xs ys)

module _ (older chunk kept : List ℕ) (room : ℕ) where
  window_full : room ≡ 0 → drop (length (older ++ chunk) - room) (older ++ chunk) ++ kept ≡ kept
  window_full e = rw (drop_all (length (older ++ chunk) - room) (older ++ chunk) (omega (arith, e)))

  window_fits :
      length chunk ≤ room
      → drop (length (older ++ chunk) - room) (older ++ chunk) ++ kept
        ≡ drop (length older - (room - length chunk)) older ++ (chunk ++ kept)
  window_fits h =
      let e : length (older ++ chunk) - room ≡ length older - (room - length chunk) =
        omega (arith, length-append older chunk) in
      let z : length (older ++ chunk) - room - length older ≡ 0 =
        omega (arith, length-append older chunk) in
      rw (drop-append_split (length (older ++ chunk) - room) older chunk, z, e, append_assoc)

  window_trims :
      room < length chunk
      → drop (length (older ++ chunk) - room) (older ++ chunk) ++ kept
        ≡ drop (length older - 0) older ++ (drop (length chunk - room) chunk ++ kept)
  window_trims h =
      let e : length (older ++ chunk) - room - length older ≡ length chunk - room =
        omega (arith, length-append older chunk) in
      rw (
        drop-append_split (length (older ++ chunk) - room) older chunk,
        e,
        drop_all (length (older ++ chunk) - room) older (omega (arith, length-append older chunk)),
        drop_all (length older - 0) older (omega arith),
      )

concat-select_newest :
    (max_bytes : ℕ) (rs : List (List ℕ)) (total : ℕ) (selected : List (List ℕ))
    → total ≤ max_bytes
    → concat (select_newest max_bytes rs total selected)
      ≡ drop (length (concat_older rs) - (max_bytes - total)) (concat_older rs) ++ concat selected
unfolding select_newest concat_older concat
concat-select_newest max_bytes [] total selected h = ground arith
concat-select_newest max_bytes (chunk ∷ older) total selected h = grind (
  arith,
  window_full (concat_older older) chunk (concat selected) (max_bytes - total),
  window_fits (concat_older older) chunk (concat selected) (max_bytes - total),
  window_trims (concat_older older) chunk (concat selected) (max_bytes - total),
  concat-select_newest max_bytes older (total + length chunk) (chunk ∷ selected),
  concat-select_newest max_bytes older max_bytes
      (drop (length chunk - (max_bytes - total)) chunk ∷ selected),
)

-- The replay is the newest bytes of the scrollback: all of them, or the last `max_bytes`.
pub concat-replay_scrollback :
    (ring : List (List ℕ)) (max_bytes : ℕ)
    → concat (replay_scrollback ring max_bytes)
      ≡ drop (length (concat ring) - max_bytes) (concat ring)
unfolding replay_scrollback concat
concat-replay_scrollback ring max_bytes = grind (
  arith,
  concat-select_newest max_bytes (reverse ring) 0 [],
  concat_older-reverse ring,
  append-nil,
  drop_all (length (concat ring) - max_bytes) (concat ring),
)
