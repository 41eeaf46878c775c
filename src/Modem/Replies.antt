-- ===== src/Modem/Replies.antt =====
-- `process_serial_frame` on the replies of the modem.
use riot_oss7_modem.Common.{
  ℕ, suc, ◌≤◌, ◌<◌, ◌≡◌, ◌≢◌, ◌^◌, refl, ap, ◌∙◌, Bool, true, false, List, [], ◌∷◌, ◌++◌, tabulate,
  tabulate_ext, length, length-append, leb, some, done, fault, out_of_bounds, ◌>>=◌, arith,
}
use riot_oss7_modem.Common.Memory.{Bytes, memcpy}
use riot_oss7_modem.Fifo.{Fifo}
use riot_oss7_modem.Alp.{FileData, return_file_data}
use riot_oss7_modem.Alp.Encoding.{control, encode_file_data}
use riot_oss7_modem.Alp.Front.{Holds}
use riot_oss7_modem.Alp.Parsing.{parse_tag_response, parse_return_file_data}
use riot_oss7_modem.Modem.{Modem}
use riot_oss7_modem.Modem.Serial.{
  handle_return, handle_action, process_actions, complete, process_serial_frame,
}
use riot_oss7_modem.Modem.Rounds.{
  answered, complete_synchronous, frame_lem, loop_step, loop_stop, memcpy_copied, memcpy_kept,
  round_fault, round_lem, tag_handled, tag_unexpected,
}

module _ (stale : ℕ → Bytes) (f : Fifo) (m : Modem) (error completed : Bool) (tag_id : ℕ)
    (holds : Holds f (control 35 error completed ∷ tag_id ∷ [])) where
  -- A tag response with another tag than that of the last command changes nothing.
  pub unexpected_tag_ignored :
      m.command.tag_id ≢ tag_id → (g : Fifo) × (process_serial_frame stale f m ≡ some (done (g, m)))
  unfolding complete
  unexpected_tag_ignored e =
      let (g, ran, holds') = parse_tag_response f (stale 2) error completed tag_id [] holds in
      let round =
        round_lem (stale 2) false f m _ g false m ran
          (tag_unexpected m false error completed tag_id e) in
      (
        g,
        frame_lem stale f m _ (done (false, g, m)) holds (
            loop_step 2 stale false f m _ _ (done (false, g, m)) holds round
            ∙ loop_stop 1 stale false g m holds'),
      )

  -- A tag response with the tag of the command stores its error flag. If it says that the command is
  -- completed, whoever waits is told, and another command can be sent; otherwise the command stays.
  pub tag_completes :
      m.command.tag_id ≡ tag_id
      → (g : Fifo) × (process_serial_frame stale f m
          ≡ some (complete completed (answered m error) >>= λ m'. done (g, m')))
  tag_completes e =
      let (g, ran, holds') = parse_tag_response f (stale 2) error completed tag_id [] holds in
      let round =
        round_lem (stale 2) false f m _ g completed (answered m error) ran
          (tag_handled m false error completed tag_id e) in
      (
        g,
        frame_lem stale f m _ (done (completed, g, answered m error)) holds (
            loop_step 2 stale false f m _ _ (done (completed, g, answered m error)) holds round
            ∙ loop_stop 1 stale completed g (answered m error) holds'),
      )

-- Returned data.
module _ (stale : ℕ → Bytes) (f : Fifo) (m : Modem) (b6 b7 error : Bool)
    (file_id offset n tag_id : ℕ) (bytes : Bytes) (offset_small : offset < 2 ^ 30)
    (n_small : n < 256) (synchronous : m.command.execute_synchronuous ≡ true)
    (holds : Holds f (
      control 32 b6 b7 ∷ encode_file_data file_id offset n bytes
      ++ (control 35 error true ∷ tag_id ∷ []))) where
  abbrev reply : List ℕ
  reply =
      control 32 b6 b7 ∷ encode_file_data file_id offset n bytes
      ++ (control 35 error true ∷ tag_id ∷ [])

  abbrev rounds : ℕ
  rounds = length (encode_file_data file_id offset n bytes)

  length-reply : length reply ≡ suc (suc (suc rounds))
  length-reply = omega (
    arith,
    length-append (encode_file_data file_id offset n bytes) (control 35 error true ∷ tag_id ∷ []),
  )

  copied_in : FileData → Modem
  copied_in operand = record m {
    command = record m.command {
      response_buffer =
          memcpy m.command.response_buffer 0 operand.bytes operand.provided_data_length;
    };
  }

  return_handled :
      (operand : FileData)
      → operand.provided_data_length ≤ m.command.response_size
      → handle_action (return_file_data operand) false m ≡ done (false, copied_in operand)
  unfolding handle_action handle_return copied_in
  return_handled operand h =
      let fits : leb operand.provided_data_length m.command.response_size ≡ true =
        ground (arith, h) in
      rw (synchronous, fits) refl

  return_overflows :
      (operand : FileData)
      → m.command.response_size < operand.provided_data_length
      → handle_action (return_file_data operand) false m ≡ fault out_of_bounds
  unfolding handle_action handle_return
  return_overflows operand h =
      let over : leb operand.provided_data_length m.command.response_size ≡ false =
        ground (arith, h) in
      rw (synchronous, over) refl

  -- The reply to a synchronous read, data of up to 255 bytes that fit the caller's buffer and a tag
  -- response with the command's tag that says completed: exactly the data are copied to the buffer,
  -- nothing past them, the caller is woken up, the modem is free for the next command, the interface
  -- is as it was, and nothing of the frame is left.
  pub read_reply :
      n ≤ m.command.response_size
      → m.command.tag_id ≡ tag_id
      → (g : Fifo) × (m' : Modem) × (process_serial_frame stale f m ≡ some (done (g, m')))
        × (tabulate n m'.command.response_buffer ≡ tabulate n bytes)
        × ((i : ℕ) → n ≤ i → m'.command.response_buffer i ≡ m.command.response_buffer i)
        × (m'.locked ≡ false)
        × (m'.command.is_active ≡ false)
        × (m'.command.completed_with_error ≡ error)
        × (m'.interface ≡ m.interface)
        × Holds g []
  unfolding copied_in
  read_reply fits same =
      let stale1 = stale (suc (suc (suc rounds))) in
      let stale2 = stale (suc (suc rounds)) in
      let tag = control 35 error true ∷ tag_id ∷ [] in
      let (operand, g, ran, read, holds') =
        parse_return_file_data f stale1 b6 b7 file_id offset n bytes tag offset_small n_small
          holds in
      let round =
        round_lem stale1 false f m _ g false (copied_in operand) ran
          (return_handled operand (omega (arith, fits, read.same_length))) in
      let (h, ran', holds'') = parse_tag_response g stale2 error true tag_id [] holds' in
      let round' =
        round_lem stale2 false g (copied_in operand) _ h true (answered (copied_in operand) error)
          ran' (tag_handled (copied_in operand) false error true tag_id same) in
      let waiting = answered (copied_in operand) error in
      let ends : process_actions (suc (length reply)) stale false f m
          ≡ some (done (true, h, waiting)) =
        ap (λ k. process_actions (suc k) stale false f m) length-reply
        ∙ loop_step (suc (suc (suc rounds))) stale false f m _ _
            (done (false, g, copied_in operand)) holds round
        ∙ loop_step (suc (suc rounds)) stale false g (copied_in operand) _ _
            (done (true, h, waiting)) holds' round'
        ∙ loop_stop (suc rounds) stale true h waiting holds'' in
      (
        h,
        record waiting { locked = false; command = record waiting.command { is_active = false } },
        frame_lem stale f m reply (done (true, h, waiting)) holds ends
            ∙ ap (λ r. some (r >>= λ m''. done (h, m'')))
                (complete_synchronous waiting synchronous),
        tabulate_ext n _ _ (λ i p.
              memcpy_copied m.command.response_buffer operand.bytes _ i
                (omega (arith, p, read.same_length)))
            ∙ read.same_bytes,
        λ i p.
            memcpy_kept m.command.response_buffer operand.bytes _ i
              (omega (arith, p, read.same_length)),
        refl,
        refl,
        refl,
        refl,
        holds'',
      )

  -- Data of up to 255 bytes for a synchronous command whose caller's buffer is smaller: the `memcpy` goes
  -- past the end of it.
  pub read_reply_overflows :
      m.command.response_size < n → process_serial_frame stale f m ≡ some (fault out_of_bounds)
  read_reply_overflows over =
      let stale1 = stale (suc (suc (suc rounds))) in
      let tag = control 35 error true ∷ tag_id ∷ [] in
      let (operand, g, ran, read, _) =
        parse_return_file_data f stale1 b6 b7 file_id offset n bytes tag offset_small n_small
          holds in
      let round =
        round_fault stale1 false f m _ g out_of_bounds ran
          (return_overflows operand (omega (arith, over, read.same_length))) in
      frame_lem stale f m reply (fault out_of_bounds) holds (
        ap (λ k. process_actions (suc k) stale false f m) length-reply
        ∙ loop_step (suc (suc (suc rounds))) stale false f m _ _ (fault out_of_bounds) holds round)
