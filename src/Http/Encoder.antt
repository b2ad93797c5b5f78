-- ===== src/Http/Encoder.antt =====
-- src/encoder.hpp and src/process.cpp: `DataEncoder` and `FileEncoder`, and the loops of
-- `internal::_send` and `internal::send` that pass their bytes to a socket. What a socket accepts in each
-- call is a parameter; a file is the bytes that it holds.
pub mod Sending
mod Tests
use libprocess.Common.{
  ℕ, zero, suc, ◌+◌, ◌-◌, Bool, true, false, Option, none, some, List, [], ◌∷◌, ◌++◌, if◌then◌else◌,
  ◌==◌, leb, length, take, drop,
}
use libprocess.Http.Pipe.{Text}

pub data Kind : Type 0 where
  in_memory in_file : Kind

pub record Encoder : Type 0 where
  pub kind : Kind
  pub content : Text
  pub index : ℕ

abbrev pub new_encoder : Kind → Text → Encoder
new_encoder kind s = record { kind = kind; content = s; index = 0 }

-- `next`: the bytes from the index on, as a whole.
unfoldable pub next : Encoder → Encoder × Text
next e = (record e { index = length e.content }, drop e.index e.content)

unfoldable pub backup : ℕ → Encoder → Encoder
backup n e = if leb n e.index then record e { index = e.index - n } else e

unfoldable pub remaining : Encoder → ℕ
remaining e = length e.content - e.index

-- `Socket::send` and `Socket::sendfile`: how many bytes the call with this number takes, of those that it
-- is given; none is a failure.
abbrev pub Socket : Type 0
Socket = ℕ → Kind → ℕ → Option ℕ

-- A loop that is done has sent everything, or the socket was closed on a failure.
pub record Transfer : Type 0 where
  pub sent : Text
  pub calls : ℕ
  pub complete : Bool

abbrev pub with_sent : Text → Option Transfer → Option Transfer
with_sent s none = none
with_sent s (some t) = some (record t { sent = s ++ t.sent })

module _ (socket : Socket) where
  -- `internal::_send`, from the call of the socket with this number on.
  unfoldable pub send_content : ℕ → ℕ → Encoder → Option Transfer
  unfolding next backup remaining
  send_content zero calls e = none
  send_content (suc fuel) calls e =
      let (e', s) = next e in
      elim (socket calls e.kind (length s)) [
        | none ↦ some (record { sent = []; calls = suc calls; complete = false })
        | some n ↦
            let e'' = backup (length s - n) e' in
            elim (remaining e'' == 0) [
              | true ↦ some (record { sent = take n s; calls = suc calls; complete = true })
              | false ↦ with_sent (take n s) (send_content fuel (suc calls) e'')
            ]
      ]

  -- `internal::send`: one encoder after the other, as `SocketManager::next` gives them.
  abbrev pub continue_with : Transfer → (ℕ → Option Transfer) → Option Transfer
  continue_with t rest = if t.complete then with_sent t.sent (rest t.calls) else some t

  unfoldable pub send_all : List (Kind × Text) → ℕ → Option Transfer
  unfolding send_content
  send_all [] calls = some (record { sent = []; calls = calls; complete = true })
  send_all ((kind, s) ∷ more) calls =
      elim (send_content (suc (length s)) calls (new_encoder kind s)) [
        | none ↦ none
        | some t ↦ continue_with t (send_all more)
      ]
