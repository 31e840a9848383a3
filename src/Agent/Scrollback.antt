-- ===== src/Agent/Scrollback.antt =====
-- The scrollback of components/agent/src/session.rs: a `VecDeque` of chunks, the oldest first. A
-- `usize` is a native number: the totals stay below the memory's size.
pub mod Window
pub mod Trim
use wisp_shell.Prelude.{
  ℕ, zero, suc, ◌+◌, ◌-◌, List, [], ◌∷◌, ◌++◌, length, drop, ltb, leb, ◌==◌, if◌then◌else◌,
}

unfoldable pub reverse : List (List ℕ) → List (List ℕ)
reverse [] = []
reverse (c ∷ cs) = reverse cs ++ c ∷ []

-- `ring.iter().map(Vec::len).sum()`
unfoldable pub total_len : List (List ℕ) → ℕ
total_len [] = 0
total_len (c ∷ cs) = length c + total_len cs

-- `while total > max_bytes { pop_front }`
unfoldable pub pop_while_over : ℕ → List (List ℕ) → ℕ → List (List ℕ)
pop_while_over max_bytes [] total = []
pop_while_over max_bytes (front ∷ ring) total =
    if ltb max_bytes total
    then pop_while_over max_bytes ring (total - length front)
    else front ∷ ring

unfoldable pub append_scrollback : List (List ℕ) → ℕ → List ℕ → List (List ℕ)
unfolding pop_while_over total_len
append_scrollback scrollback max_bytes bytes =
    let ring = scrollback ++ bytes ∷ [] in pop_while_over max_bytes ring (total_len ring)

-- The loop of `replay_scrollback` over the chunks from the newest to the oldest.
unfoldable pub select_newest : ℕ → List (List ℕ) → ℕ → List (List ℕ) → List (List ℕ)
select_newest max_bytes [] total selected = selected
select_newest max_bytes (chunk ∷ older) total selected =
    let remaining = max_bytes - total in
    let fits = leb (length chunk) remaining in
    let chunk' = if fits then chunk else drop (length chunk - remaining) chunk in
    let total' = if fits then total + length chunk else max_bytes in
    if leb max_bytes total
    then selected
    else select_newest max_bytes older total' (chunk' ∷ selected)

unfoldable pub replay_scrollback : List (List ℕ) → ℕ → List (List ℕ)
unfolding select_newest reverse
replay_scrollback scrollback max_bytes =
    if max_bytes == 0 then [] else select_newest max_bytes (reverse scrollback) 0 []

-- The scrollback after the outputs that the reader thread of components/agent/src/pty.rs takes in.
unfoldable pub record_outputs : ℕ → List (List ℕ) → List (List ℕ) → List (List ℕ)
unfolding append_scrollback
record_outputs max_bytes ring [] = ring
record_outputs max_bytes ring (bytes ∷ outputs) =
    record_outputs max_bytes (append_scrollback ring max_bytes bytes) outputs
