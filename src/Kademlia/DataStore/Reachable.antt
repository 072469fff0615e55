-- ===== src/Kademlia/DataStore/Reachable.antt =====
-- Concurrent calls of `Store` keep the store sound (kademlia/datastore.go).
use d7024e_lab.Kademlia.DataStore.Writers
use d7024e_lab.Kademlia.DataStore.Sound
use d7024e_lab.Prelude.{All, All-append, List, Option, [], subst, ℕ, ◌++◌, ◌∷◌}
use d7024e_lab.Kademlia.DataStore.Sound.{IsWriter, remove-AreEntries}
use d7024e_lab.Kademlia.DataStore.Steps.{Leaves, advance-Leaves, open_store-Leaves}
use d7024e_lab.Kademlia.DataStore.Writers.{Writer}
use d7024e_lab.Kademlia.Id.{KademliaId}
use d7024e_lab.Registry.Crypto.{Crypto, HasSizes}
use d7024e_lab.Registry.Record.{Json, Resolver}

pub All-around :
    (P : Writer → Type 0) (before : List Writer) (w : Writer) (after : List Writer)
    → All P (before ++ w ∷ after)
    → All P before × (P w × All P after)
All-around P [] w after h = (tt, h)
All-around P (b ∷ bs) w after h = let r = All-around P bs w after h.1 in ((h.0, r.0), r.1)

module _ (cr : Crypto) (js : Json) (resolver : Option Resolver) (max_size : ℕ)
    (IsOpen : KademliaId → Type 0) (sizes : HasSizes cr) where
  pub Write-IsSound :
      {s u : Writers.System}
      → Sound.IsSound cr js resolver s
      → Writers.Write cr js resolver max_size IsOpen s u
      → Sound.IsSound cr js resolver u
  unfolding Leaves
  Write-IsSound {s} sound (Writers.call key value own) =
      let l = open_store-Leaves cr js resolver max_size key value s.entries sound.entries_sound in
      record {
        entries_sound = l.0;
        writers_sound = All-append (IsWriter cr js resolver) _ s.writers l.1 sound.writers_sound;
      }
  Write-IsSound {s} sound (Writers.move getter before w after e) =
      let a =
        All-around (IsWriter cr js resolver) before w after
          (subst (All (IsWriter cr js resolver)) e sound.writers_sound) in
      let l = advance-Leaves cr js resolver getter w s.entries sizes a.1.0 sound.entries_sound in
      record {
        entries_sound = l.0;
        writers_sound =
            All-append (IsWriter cr js resolver) before _ a.0
              (All-append (IsWriter cr js resolver) _ after l.1 a.1.1);
      }
  Write-IsSound {s} sound (Writers.erase key own) = record {
    entries_sound = remove-AreEntries cr js resolver key s.entries sound.entries_sound;
    writers_sound = sound.writers_sound;
  }

  -- However calls of `Store` and `Delete` interleave, and whatever the network answers, each entry of
  -- the store is a value under its own hash, or a latest pointer under its own key that was accepted:
  -- signed by the owner that the resolver names, over a chain of the owner's records.
  pub Writes-IsSound :
      {s u : Writers.System}
      → Sound.IsSound cr js resolver s
      → Writers.Writes cr js resolver max_size IsOpen s u
      → Sound.IsSound cr js resolver u
  Writes-IsSound sound Writers.here = sound
  Writes-IsSound sound (Writers.next r st) = Write-IsSound (Writes-IsSound sound r) st
