-- ===== src/Tests/Commands.antt =====
-- Lines of input, contacts by a prefix, and the record that a publication follows.
use d7024e_lab.Registry.Version
use d7024e_lab.Prelude.{All, List, [], arith, false, none, refl, some, ◌∷◌, ◌≡◌, ◌⊎◌}
use d7024e_lab.Node.Commands.{split_command_args}
use d7024e_lab.Node.Commands.Split.{IsArgument, join_quoted, split_command_args-join_quoted}
use d7024e_lab.Node.Contacts.{find_contact_by_id}
use d7024e_lab.Node.Contacts.Matched.{find_contact_by_id-only_one, matching, only_one}
use d7024e_lab.Node.Publication.{check_rollback, choose_previous, link_to_latest}
use d7024e_lab.Node.Publication.Linked.{choose_previous-latest}
use d7024e_lab.Prelude.Bytes.{Bytes}
use d7024e_lab.Prelude.Bytes.Text.{
  is_space, split, split_parts, text, to_lower, trim_left, trim_right, trim_space,
}
use d7024e_lab.Registry.Outcome.{ok}
use d7024e_lab.Registry.Record.{LatestPointer, zero_hash}
use d7024e_lab.Registry.Version.{Version, above, parse_part, parse_parts, parse_version}
use d7024e_lab.Tests.Chains.{toy_crypto, toy_json, toy_pointer}
use d7024e_lab.Tests.Data.{peer, peer-IsKnown}

abbrev two_words : List Bytes
two_words = text "put" ∷ text "a b" ∷ []

two_words-IsArgument : All IsArgument two_words
two_words-IsArgument = (
  record { nonempty = λ e. cc; unquoted = (refl, (refl, (refl, tt))) },
  (record { nonempty = λ e. cc; unquoted = (refl, (refl, (refl, tt))) }, tt),
)

split_command_args-join_quoted_example : split_command_args (join_quoted two_words) ≡ two_words
split_command_args-join_quoted_example =
    split_command_args-join_quoted two_words two_words-IsArgument

find_contact_by_id-only_one_example :
    find_contact_by_id (peer 5 ∷ peer 7 ∷ []) (text " 00")
    ≡ some (only_one (matching (to_lower (trim_space (text " 00"))) (peer 5 ∷ peer 7 ∷ [])))
find_contact_by_id-only_one_example =
    find_contact_by_id-only_one (peer 5 ∷ peer 7 ∷ []) (text " 00")
      (peer-IsKnown 5 (omega arith), (peer-IsKnown 7 (omega arith), tt))

follows_latest :
    choose_previous toy_crypto toy_json false (text "1.1.0") (some toy_pointer) none (ok [])
    ≡ ok toy_pointer.version_record_hash
unfolding choose_previous check_rollback link_to_latest parse_version Version.compare trim_space
    trim_left trim_right is_space split split_parts parse_part parse_parts
follows_latest = refl

choose_previous-latest_example :
    ((some toy_pointer ≡ none) × (toy_pointer.version_record_hash ≡ zero_hash))
    ⊎ ((lp : LatestPointer) × (some toy_pointer ≡ some lp)
        × (toy_pointer.version_record_hash ≡ lp.version_record_hash)
        × ((v w : Version.Version)
            → parse_version (text "1.1.0") ≡ ok v
            → parse_version lp.version ≡ ok w
            → Version.compare v w ≡ above))
choose_previous-latest_example =
    choose_previous-latest toy_crypto toy_json (text "1.1.0") (some toy_pointer) none (ok [])
      toy_pointer.version_record_hash follows_latest
