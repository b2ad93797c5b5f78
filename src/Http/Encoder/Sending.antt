-- ===== src/Http/Encoder/Sending.antt =====
-- src/encoder.hpp and src/process.cpp: the loops that send an encoder end, and send its bytes in order.
use libprocess.Common.{◌≡◌, true, Option, some, List, [], ◌∷◌, ◌++◌}
use libprocess.Http.Pipe.{Text}
use libprocess.Http.Encoder.{Kind, Encoder, Transfer}

abbrev pub contents : List (Kind × Text) → Text
contents [] = []
contents ((kind, s) ∷ more) = s ++ contents more

-- A transfer of these bytes: all of them, or those before a failure.
pub record Transfers (s : Text) (result : Option Transfer) : Type 0 where
  pub transfer : Transfer
  pub unsent : Text
  pub ends : result ≡ some transfer
  pub in_order : transfer.sent ++ unsent ≡ s
  pub all_sent : transfer.complete ≡ true → unsent ≡ []
