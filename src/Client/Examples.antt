-- ===== src/Client/Examples.antt =====
-- The client's theorems at concrete inputs.
mod Terminal
use wisp_shell.Prelude.{ℕ, ◌≡◌, refl, Option, none, some, [], ◌∷◌, Str, text}
use wisp_shell.Client.Link.{Crates, u8_from_str}

reads_version : u8_from_str (text "+255") ≡ some 255
unfolding u8_from_str
reads_version = refl

refuses_version : u8_from_str (text "256") ≡ none
unfolding u8_from_str
refuses_version = refl

-- A parser that knows the one link of this run.
abbrev crates : Crates
crates = record {
  parse = λ s. some (record {
    scheme = text "wispshell";
    host_str = some (text "pair");
    query_pairs =
        (text "v", text "1")
        ∷ (text "cloud", text "c")
        ∷ (text "pair_id", text "p")
        ∷ (text "daemon_id", text "d")
        ∷ (text "daemon_pub", text "k")
        ∷ (text "secret", text "s")
        ∷ (text "expires", 9 ∷ [])
        ∷ [];
  });
  encode = λ s. s;
  to_rfc3339 = λ t. t ∷ [];
  parse_from_rfc3339 = first;
}
  where
    first : Str → Option ℕ
    first [] = none
    first (t ∷ rest) = some t
