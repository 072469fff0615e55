-- ===== src/Node/Commands/Split.antt =====
-- Arguments that are quoted come back from `splitCommandArgs` (cmd/node/cli.go).
use mathlib.Core.List.{append-nil, append_assoc}
use d7024e_lab.Prelude.{
  All, List, [], ap, false, none, refl, some, sym, ◌++◌, ◌==◌, ◌∙◌, ◌∷◌, ◌≡◌, ◌≢◌,
}
use d7024e_lab.Node.Commands.{flush, split_command_args, split_from}
use d7024e_lab.Prelude.Bytes.{Bytes}

-- An argument between double quotes.
abbrev pub quoted : Bytes → Bytes
quoted a = 34 ∷ (a ++ (34 ∷ []))

unfoldable pub join_quoted : List Bytes → Bytes
join_quoted [] = []
join_quoted (a ∷ []) = quoted a
join_quoted (a ∷ b ∷ as') = quoted a ++ (32 ∷ join_quoted (b ∷ as'))

-- Not empty, and without a double quote.
pub record IsArgument (a : Bytes) : Type 0 where
  pub nonempty : a ≢ []
  pub unquoted : All (λ c. (c == 34) ≡ false) a

flush_nonempty : (a : Bytes) → a ≢ [] → flush a ≡ a ∷ []
unfolding flush
flush_nonempty [] n = absurd (n refl)
flush_nonempty (c ∷ cs) n = refl

-- Inside the quotes every byte is kept.
split_quoted :
    (a rest current : Bytes)
    → All (λ c. (c == 34) ≡ false) a
    → split_from (a ++ (34 ∷ rest)) (some 34) current ≡ split_from rest none (current ++ a)
unfolding split_from
split_quoted [] rest current h = ap (split_from rest none) (sym (append-nil current))
split_quoted (c ∷ cs) rest current h =
    rw (split_from, h.0)
      (split_quoted cs rest (current ++ (c ∷ [])) h.1
        ∙ ap (split_from rest none) (append_assoc current (c ∷ []) cs))

unfoldable continue : List Bytes → Bytes
continue [] = []
continue (b ∷ bs) = 32 ∷ join_quoted (b ∷ bs)

join-continue : (a : Bytes) (as' : List Bytes) → join_quoted (a ∷ as') ≡ quoted a ++ continue as'
unfolding join_quoted continue
join-continue a [] = sym (append-nil (quoted a))
join-continue a (b ∷ bs) = refl

-- Arguments that are not empty and have no double quote, put between double quotes and joined by
-- spaces, are split into just these arguments, whatever spaces and single quotes they contain.
pub split_command_args-join_quoted :
    (args : List Bytes) → All IsArgument args → split_command_args (join_quoted args) ≡ args
unfolding split_command_args split_from join_quoted continue
split_command_args-join_quoted [] h = refl
split_command_args-join_quoted (a ∷ as') h =
    ap (λ s. split_from s none []) (join-continue a as')
    ∙ ap (λ s. split_from s (some 34) []) (append_assoc a (34 ∷ []) (continue as'))
    ∙ split_quoted a (continue as') [] h.0.unquoted
    ∙ after_quoted as' (split_command_args-join_quoted as' h.1)
  where
    after_quoted :
        (bs : List Bytes)
        → split_from (join_quoted bs) none [] ≡ bs
        → split_from (continue bs) none a ≡ a ∷ bs
    after_quoted [] k = flush_nonempty a h.0.nonempty
    after_quoted (b ∷ bs) k = cc (flush_nonempty a h.0.nonempty, k)
