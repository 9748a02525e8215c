-- ===== src/Program/Ending.antt =====
-- What src/bin/file-sharing.rs does once the task of the event loop has ended.
use file_sharing_example.Common.{◌≡◌, refl, none, List, lookup, nat_eq, Bool, arith}
use file_sharing_example.FileGet.Types.{Channel, Text}
use file_sharing_example.Command.{Command, Result, ok, from_str}
use file_sharing_example.Network.Types.{CommandResponse, CommandRequest, Rendezvous, EventLoop}
use file_sharing_example.Network.Client.{Client, send_command}
use file_sharing_example.Network.Startup.Ends.{IsReady}
use file_sharing_example.Program.{
  ended, reading, waiting, crashed, Session, new_session, begin_command, handle_input, send, Moves,
  line, receive, event, reply, cancel, Reaches,
}
use file_sharing_example.Program.Safety.{at_status, Reaches-IsSound}

module _ (r : Rendezvous) (debug : Bool) where
  -- A request that has no answer, and a task that has ended.
  hopeless_crashes :
      (req : CommandRequest) (answers : List (Channel × Result CommandResponse))
      {s t : Session r.Namespace}
      → s.status ≡ waiting req
      → s.task ≡ ended answers
      → lookup req.response_sender answers ≡ none
      → Moves r debug s t
      → t.status ≡ crashed
  hopeless_crashes req answers waits over silent (line text e) = cc
  hopeless_crashes req answers waits over silent (receive w l q rest runs held) = cc
  hopeless_crashes req answers waits over silent (event w l ev runs) = cc
  hopeless_crashes req answers waits over silent (reply q answer e found) =
      let same : req ≡ q = cc in cc (rw (over, ← same) at found)
  hopeless_crashes req answers waits over silent (cancel q e none_yet closed) = refl

  -- Once the task of the event loop has ended while the program reads lines, the next line that is a
  -- command crashes it: after that line there is a step, and every step is the panic of the `unwrap`.
  pub command_after_end_crashes :
      (client : Client) (l : EventLoop r.Namespace) {s : Session r.Namespace}
      (answers : List (Channel × Result CommandResponse)) (text : Text) (command : Command)
      → IsReady l
      → Reaches r debug (new_session client l) s
      → s.task ≡ ended answers
      → s.status ≡ reading
      → from_str text ≡ ok command
      → ((t : Session r.Namespace) × Moves r debug (handle_input text s) t)
        × ((t : Session r.Namespace) → Moves r debug (handle_input text s) t → t.status ≡ crashed)
  unfolding handle_input begin_command send_command send
  command_after_end_crashes client l {s} answers text command ready steps over free parsed =
      let h = Reaches-IsSound r debug client l ready steps in
      let ((empty, idle), fresh) = at_status s h free in
      let req = (send_command s.client command s.next_channel).1 in
      let silent : lookup req.response_sender answers ≡ none =
        rw over at (fresh s.next_channel (omega arith)) in
      rw (parsed, handle_input)
        (
          (_, cancel req refl (rw over silent) (rw (over, empty) tt, rw over tt)),
          λ t m. hopeless_crashes req answers refl over silent m,
        )
