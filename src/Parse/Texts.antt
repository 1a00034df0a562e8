-- ===== src/Parse/Texts.antt =====
-- botocore/parsers.py: what _handle_list of `ResponseParser` iterates where it is given a text.
use jcsapitest.Prelude.{String, List, [], ◌∷◌, Result, ok, ◌>>=◌}
use jcsapitest.Value.{Value, Items}

-- for item in text
unfoldable pub characters : String → List String
characters String.[] = []
characters (String.◌∷◌ c s) = String.◌∷◌ c String.[] ∷ characters s

-- The loop of _handle_list over texts
unfoldable pub parse_texts : (String → Result Value) → List String → Result Items
parse_texts parse [] = ok Items.nil
parse_texts parse (t ∷ ts) =
    let rest = parse_texts parse ts in parse t >>= λ v. rest >>= λ vs. ok (Items.cons v vs)
