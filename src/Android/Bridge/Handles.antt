-- ===== src/Android/Bridge/Handles.antt =====
-- The handles and the sizes that Java passes, crates/wispshell-core/src/android_jni.rs.
use wisp_shell.Prelude.{
  ℕ, ◌+◌, ◌%◌, ◌^◌, ◌<◌, ◌≤◌, ◌≡◌, ◌≢◌, refl, ◌==◌, Option, none, some, List, [], ◌∷◌, ◌++◌, ok,
  err, if◌then◌else◌, arith,
}
use wisp_shell.Protocol.Failure.{terminal_not_found}
use wisp_shell.Android.Terminal.{Terminal, resize_to}
use wisp_shell.Android.Bridge.{
  ℤ, pos, negsuc, Bridge, find, put, remove, open_terminal, send_terminal_input, resize_terminal,
  close_terminal,
}

find-put :
    (ts : List (ℕ × Terminal)) (h i : ℕ) (t : Terminal)
    → find (put ts h t) i ≡ (if h == i then some t else find ts i)
unfolding find put
find-put [] h i t = refl
find-put ((k, u) ∷ ts) h i t = ground (arith, find-put ts h i t)

find-remove :
    (ts : List (ℕ × Terminal)) (h i : ℕ)
    → find (remove ts h) i ≡ (if h == i then none else find ts i)
unfolding find remove
find-remove [] h i = ground arith
find-remove ((k, u) ∷ ts) h i = ground (arith, find-remove ts h i)

-- Every open terminal's handle is one that was given out before `n`.
abbrev pub AreBelow : ℕ → List (ℕ × Terminal) → Type 0
AreBelow n [] = Unit {0}
AreBelow n ((h, t) ∷ ts) = (h < n) × AreBelow n ts

abbrev pub IsIssued : Bridge → Type 0
IsIssued b = AreBelow b.next_handle b.terminals

find-AreBelow :
    (n : ℕ) (ts : List (ℕ × Terminal)) (h : ℕ) → AreBelow n ts → n ≤ h → find ts h ≡ none
unfolding find
find-AreBelow n [] h below beyond = refl
find-AreBelow n ((k, u) ∷ ts) h below beyond =
    ground (arith, below.0, find-AreBelow n ts h below.1 beyond)

put-AreBelow :
    (n h : ℕ) (ts : List (ℕ × Terminal)) (t : Terminal)
    → h ≤ n
    → AreBelow n ts
    → AreBelow (n + 1) (put ts h t)
unfolding put
put-AreBelow n h [] t bound below = (omega arith, tt)
put-AreBelow n h ((k, u) ∷ ts) t bound below =
    ground (arith, below, weakened n ts below.1, put-AreBelow n h ts t bound below.1)
  where
    weakened : (n : ℕ) (ts : List (ℕ × Terminal)) → AreBelow n ts → AreBelow (n + 1) ts
    weakened n [] below = tt
    weakened n ((k, u) ∷ ts) below = (omega (arith, below.0), weakened n ts below.1)

-- A new terminal gets a handle that no open one has, and leaves those as they are, while fewer
-- than 2 ^ 64 handles were given out.
pub open_terminal-find :
    (b : Bridge) (t : Terminal) (handle : ℕ)
    → IsIssued b
    → b.next_handle + 1 < 2 ^ 64
    → IsIssued (open_terminal b t).1
      × (find b.terminals (open_terminal b t).0 ≡ none)
      × (find (open_terminal b t).1.terminals handle
          ≡ (if b.next_handle == handle then some t else find b.terminals handle))
unfolding open_terminal
open_terminal-find b t handle issued room = (
  (let same : (b.next_handle + 1) % 2 ^ 64 ≡ b.next_handle + 1 = omega arith in
      rw same (put-AreBelow b.next_handle b.next_handle b.terminals t (omega arith) issued)),
  find-AreBelow b.next_handle b.terminals b.next_handle issued (omega arith),
  find-put b.terminals b.next_handle handle t,
)

-- A handle that was closed is unknown to all later calls, and the other terminals are as before.
pub close_terminal-find :
    (b : Bridge) (handle other : ℕ) (bytes : List ℕ) (cols rows : ℤ)
    → handle ≢ other
    → (find (close_terminal b handle).1.terminals other ≡ find b.terminals other)
      × (send_terminal_input (close_terminal b handle).1 handle bytes ≡ err terminal_not_found)
      × (resize_terminal (close_terminal b handle).1 handle cols rows ≡ err terminal_not_found)
unfolding close_terminal send_terminal_input resize_terminal
close_terminal-find b handle other bytes cols rows differs =
    by_terminal (find b.terminals handle) refl
  where
    by_terminal :
        (o : Option Terminal)
        → find b.terminals handle ≡ o
        → (find (close_terminal b handle).1.terminals other ≡ find b.terminals other)
          × (send_terminal_input (close_terminal b handle).1 handle bytes ≡ err terminal_not_found)
          × (resize_terminal (close_terminal b handle).1 handle cols rows ≡ err terminal_not_found)
    by_terminal none e =
        rw (close_terminal, e, send_terminal_input, resize_terminal, e) (refl, refl, refl)
    by_terminal (some t) e = ground (
      arith,
      e,
      differs,
      find-remove b.terminals handle other,
      find-remove b.terminals handle handle,
    )

-- A size is sent on as it is, never cut down to 16 bits: a call that succeeds had both numbers
-- from 0 to 65535, and its command, the last of the terminal's, carries them.
pub resize_terminal-exact :
    (b b' : Bridge) (handle : ℕ) (cols rows : ℤ)
    → resize_terminal b handle cols rows ≡ ok b'
    → (c r : ℕ) × (t : Terminal) × (cols ≡ pos c)
      × (rows ≡ pos r)
      × (c < 2 ^ 16)
      × (r < 2 ^ 16)
      × (find b.terminals handle ≡ some t)
      × (find b'.terminals handle ≡ some (record t { commands = t.commands ++ resize_to c r ∷ [] }))
unfolding resize_terminal
resize_terminal-exact b b' handle cols rows e =
    by_terminal (find b.terminals handle) cols rows refl refl refl
  where
    by_terminal :
        (o : Option Terminal) (x y : ℤ)
        → find b.terminals handle ≡ o
        → cols ≡ x
        → rows ≡ y
        → (c r : ℕ) × (t : Terminal) × (cols ≡ pos c)
          × (rows ≡ pos r)
          × (c < 2 ^ 16)
          × (r < 2 ^ 16)
          × (find b.terminals handle ≡ some t)
          × (find b'.terminals handle
              ≡ some (record t { commands = t.commands ++ resize_to c r ∷ [] }))
    by_terminal none x y p q u = absurd (ground (arith, e, p))
    by_terminal (some t) (negsuc c) y p q u = absurd (ground (arith, e, p, q))
    by_terminal (some t) (pos c) (negsuc r) p q u = absurd (ground (arith, e, p, q, u))
    by_terminal (some t) (pos c) (pos r) p q u = (
      c,
      r,
      t,
      q,
      u,
      ground (arith, e, p, q, u),
      ground (arith, e, p, q, u),
      p,
      ground (
        arith,
        e,
        p,
        q,
        u,
        find-put b.terminals handle handle
            (record t { commands = t.commands ++ resize_to c r ∷ [] }),
      ),
    )
