-- ===== src/Android/Native/Paths.antt =====
-- The task of `connectP2pTerminal` that watches the connection's path.
use wisp_shell.Prelude.{
  ℕ, ◌≡◌, ◌≢◌, ◌∙◌, ap, refl, Bool, true, false, ◌&&◌, not, Option, none, some, List, [], ◌∷◌, Str,
  str_eq, str_eq_iff, text, ltb, ◌==◌, Bool-cases, inl, inr, if◌then◌else◌, arith,
}

-- iroh's `PathInfo`, its round trip in milliseconds.
pub record PathInfo : Type 0 where
  pub is_relay : Bool
  pub is_ip : Bool
  pub rtt : Option ℕ

unfoldable pub transport_name : PathInfo → Str
transport_name path =
    if path.is_relay then text "relay" else if path.is_ip then text "direct" else text "unknown"

pub record Snapshot : Type 0 where
  pub transport : Str
  pub rtt_ms : Option ℕ

unfoldable pub snapshot : Option PathInfo → Snapshot
unfolding transport_name
snapshot none = record { transport = text "unknown"; rtt_ms = none }
snapshot (some path) = record { transport = transport_name path; rtt_ms = path.rtt }

abbrev same_rtt : Option ℕ → Option ℕ → Bool
same_rtt none none = true
same_rtt (some a) (some b) = a == b
same_rtt none (some b) = false
same_rtt (some a) none = false

unfoldable pub same_snapshot : Snapshot → Snapshot → Bool
same_snapshot a b = str_eq a.transport b.transport && same_rtt a.rtt_ms b.rtt_ms

-- `last_snapshot.as_ref() != Some(&snapshot)`
unfoldable pub is_news : Option Snapshot → Snapshot → Bool
unfolding same_snapshot
is_news none s = true
is_news (some last) s = not (same_snapshot last s)

-- The calls of `transport_path` on the paths that the rounds see.
unfoldable pub watch : Option Snapshot → List (Option PathInfo) → List Snapshot
unfolding snapshot is_news
watch last [] = []
watch last (path ∷ paths) =
    let s = snapshot path in
    let reported = s ∷ watch (some s) paths in
    let silent = watch last paths in if is_news last s then reported else silent

-- The milliseconds that Java gets, none for its -1: those that an `i32` holds.
unfoldable pub jint_latency : Option ℕ → Option ℕ
jint_latency none = none
jint_latency (some ms) = if ltb ms 2147483648 then some ms else none

-- The snapshot that stands after the reports.
abbrev pub last_of : Option Snapshot → List Snapshot → Option Snapshot
last_of last [] = last
last_of last (s ∷ reports) = last_of (some s) reports

abbrev pub last_seen : Option Snapshot → List (Option PathInfo) → Option Snapshot
last_seen last [] = last
last_seen last (path ∷ paths) = last_seen (some (snapshot path)) paths

-- Each report differs from the one before it.
abbrev pub AllDiffer : Option Snapshot → List Snapshot → Type 0
AllDiffer last [] = Unit {0}
AllDiffer last (s ∷ reports) = (last ≢ some s) × AllDiffer (some s) reports

same_rtt-eq : (a b : Option ℕ) → same_rtt a b ≡ true → a ≡ b
same_rtt-eq none none h = refl
same_rtt-eq (some a) (some b) h = ground (arith, h)
same_rtt-eq none (some b) h = cc
same_rtt-eq (some a) none h = cc

same_rtt_refl : (a : Option ℕ) → same_rtt a a ≡ true
same_rtt_refl none = refl
same_rtt_refl (some a) = ground arith

same_snapshot-eq : (a b : Snapshot) → same_snapshot a b ≡ true → a ≡ b
unfolding same_snapshot
same_snapshot-eq a b h =
    ground (arith, h, str_eq_iff a.transport b.transport, same_rtt-eq a.rtt_ms b.rtt_ms)

same_snapshot_refl : (a : Snapshot) → same_snapshot a a ≡ true
unfolding same_snapshot
same_snapshot_refl a = ground (arith, str_eq_iff a.transport a.transport, same_rtt_refl a.rtt_ms)

no_news-eq : (last : Option Snapshot) (s : Snapshot) → is_news last s ≡ false → last ≡ some s
unfolding is_news
no_news-eq none s h = cc
no_news-eq (some last) s h = ground (arith, h, same_snapshot-eq last s)

news-differs : (last : Option Snapshot) (s : Snapshot) → is_news last s ≡ true → last ≢ some s
unfolding is_news
news-differs none s h e = cc
news-differs (some last) s h e = ground (arith, h, same_snapshot_refl s, e)

-- The phone is told of the path that stands, after any paths that the connection went through, and
-- never twice in a row of the same one.
pub watch_tells :
    (last : Option Snapshot) (paths : List (Option PathInfo))
    → AllDiffer last (watch last paths) × (last_of last (watch last paths) ≡ last_seen last paths)
unfolding watch
watch_tells last [] = (tt, refl)
watch_tells last (path ∷ paths) = elim (Bool-cases (is_news last (snapshot path))) [
  | inl news ↦
      let later = watch_tells (some (snapshot path)) paths in
      rw news ((news-differs last (snapshot path) news, later.0), later.1)
  | inr old ↦
      let later = watch_tells last paths in
      rw old (later.0, later.1 ∙ ap (λ x. last_seen x paths) (no_news-eq last (snapshot path) old))
]
