-- ===== src/Terminal/Following.antt =====
-- A client that reads a terminal of src/remote_host_mcp/terminal.py on from where it stopped.
use remote_host_mcp.Prelude.{
  ℕ, ◌≤◌, ◌≡◌, Bool, Option, none, some, List, [], ◌∷◌, ◌++◌, take, length, if◌then◌else◌,
}
use remote_host_mcp.Disk.{Bytes}
use remote_host_mcp.Terminal.State.{Session, append_output, Wake, read_slice}
use remote_host_mcp.Terminal.Stream.{Stream}
use remote_host_mcp.Terminal.Refine.{Stands}

-- The shell writes, or the client reads on.
pub data Turn : Type 0 where
  shell : ℕ → Bytes → Turn
  poll : ℕ → Bool → List Wake → Turn

-- What the client has, where it stands and the session, or none once a read has failed or was marked
-- as truncated.
unfoldable pub follow : Session → ℕ → List Turn → Option (Bytes × ℕ × Session)
unfolding append_output read_slice
follow s at [] = some ([], at, s)
follow s at (shell now chunk ∷ turns) = follow (append_output now chunk s) at turns
follow s at (poll max_bytes alive waits ∷ turns) =
    let (slice, s') = read_slice (some at) max_bytes alive waits s in
    elim slice [
      | none ↦ none
      | some sl ↦ if sl.truncated then none else elim (follow s' sl.next_cursor turns) [
        | none ↦ none
        | some (got, end, final) ↦ some (sl.text ++ got, end, final)
      ]
    ]

-- The second stream goes on from the first.
pub record Continues (a b : Bytes × Stream) : Type 0 where
  pub more : Bytes
  pub longer : b.1.shown ≡ a.1.shown ++ more

pub record Followed (at : ℕ) (got : Bytes) (end : ℕ) (cap : ℕ) (a : Bytes × Stream) (s : Session)
    : Type 0 where
  pub final : Bytes × Stream
  pub stands : Stands cap final s
  pub on : Continues a final
  pub inside : end ≤ length final.1.shown
  pub all : take end final.1.shown ≡ take at final.1.shown ++ got
