-- ===== src/Tests/Shortlists.antt =====
-- Shortlists: the properties at a shortlist for the target 9 on the node 0.
use d7024e_lab.Kademlia.Shortlist
use d7024e_lab.Kademlia.Shortlist.Kept
use d7024e_lab.Kademlia.Id
use d7024e_lab.Prelude.{[], arith, refl, some, subst, ℕ, ◌<◌, ◌∷◌, ◌≡◌}
use d7024e_lab.Kademlia.Contact.{IsTyped}
use d7024e_lab.Kademlia.Id.{IsId}
use d7024e_lab.Kademlia.Shortlist.{Shortlist, is_own, mark, new_shortlist, queried, unqueried}
use d7024e_lab.Kademlia.Shortlist.Kept.{new_shortlist-IsValid}
use d7024e_lab.Kademlia.Shortlist.Marks.{mark-IsValid}
use d7024e_lab.Tests.Data.{peer, small, small-IsId}

abbrev fresh : Shortlist.Shortlist
fresh = new_shortlist (some (small 9)) (some (small 0))

fresh-IsValid : Kept.IsValid (small 9) fresh
fresh-IsValid = new_shortlist-IsValid (small 9) (some (small 0)) (small-IsId 9 (omega arith))

pub peer-IsTyped : (n : ℕ) → n < 256 → IsTyped (peer n)
peer-IsTyped n h = record {
  id_typed = λ k e. subst IsId (let p : small n ≡ k = cc in p) (small-IsId n h);
}

-- A shortlist with the contact 5, which then answers.
abbrev pub with_peer : Shortlist.Shortlist
with_peer = record fresh {
  candidates =
      (
        Id.string (small 5),
        record {
          contact = record (peer 5) { distance = some (Id.calc_distance (small 5) (small 9)) };
          status = unqueried;
        },
      )
      ∷ [];
}

pub with_peer-IsValid : Kept.IsValid (small 9) with_peer
unfolding new_shortlist is_own Id.equals
with_peer-IsValid = record {
  has_target = refl;
  target_id = small-IsId 9 (omega arith);
  held = (
    record {
      known = record { has_id = refl; key_id = small-IsId 5 (omega arith) };
      named = refl;
      measured = refl;
      not_own = refl;
    },
    tt,
  );
  distinct = (tt, tt);
}

abbrev answered_five : Shortlist.Shortlist
answered_five = mark queried with_peer (some (small 5))

answered_five-IsValid : Kept.IsValid (small 9) answered_five
answered_five-IsValid = mark-IsValid (small 9) queried with_peer (some (small 5)) with_peer-IsValid
