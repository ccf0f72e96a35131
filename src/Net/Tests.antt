-- ===== src/Net/Tests.antt =====
-- A client that sends five bytes and seven.
use linuxapp.Common.{some, true, [], ◌∷◌, ◌≡◌, refl, false}
use linuxapp.Common.Int.{pos, negsuc}
use linuxapp.Net.{Process, Round, serve}
use linuxapp.Net.Replies.{AllNonzero, AllRefused, child_serves}

abbrev listener : Process
listener = record { ended = false; listening = true; clients = [] }

abbrev client : Round
client = record { accepted = λ open_still. pos 4; pid = pos 0; sizes = pos 5 ∷ pos 7 ∷ pos 0 ∷ [] }

abbrev none_there : Round
none_there = record { accepted = λ open_still. negsuc 0; pid = pos 0; sizes = [] }

child_serves_example :
    serve (client ∷ none_there ∷ none_there ∷ []) listener
    ≡ some (pos 5 ∷ pos 7 ∷ [], record { ended = false; listening = false; clients = pos 4 ∷ [] })
unfolding AllNonzero AllRefused
child_serves_example =
    child_serves client (pos 5 ∷ pos 7 ∷ []) [] [] (none_there ∷ none_there ∷ []) refl refl
      (refl, (refl, tt)) refl (refl, (refl, tt))
