-- ===== src/Alp/Commands.antt =====
-- The actions that the driver appends, against their encodings.
use riot_oss7_modem.Common.{
  ℕ, ◌*◌, ◌^◌, ◌<◌, ◌≡◌, refl, Bool, true, false, List, [], ◌∷◌, ◌++◌, tabulate, length,
  length-tabulate, Outcome, ◌>>=◌, u16, arith, bit_or,
}
use riot_oss7_modem.Common.Memory.{Bytes}
use riot_oss7_modem.Fifo.{Fifo}
use riot_oss7_modem.Fifo.Put.{IsWritable, HasRoom}
use riot_oss7_modem.Alp.{read_file_data_op, write_file_data_op, request_tag_op}
use riot_oss7_modem.Alp.Append.{
  bit, flagged, assert_put, append_length_operand, append_file_offset_operand,
  append_tag_request_action, append_read_file_data_action, append_write_file_data_action,
  append_return_file_data_action,
}
use riot_oss7_modem.Alp.Encoding.{encode_length, control, encode_file_offset, encode_file_data}
use riot_oss7_modem.Alp.Appended.{Appends, Appends->>=, assert_put-Appends, assert_put_byte-Appends}
use riot_oss7_modem.Alp.Appending.{byte-then, append_length_operand-Appends}

-- A length, then the rest.
length-then :
    (f : Fifo) (n : ℕ) (ys : List ℕ) (k : Fifo → Outcome Fifo)
    → IsWritable f
    → n < 2 ^ 30
    → HasRoom f (length (encode_length n ++ ys))
    → ((g : Fifo) → IsWritable g → HasRoom g (length ys) → Appends g ys (k g))
    → Appends f (encode_length n ++ ys) (append_length_operand f n >>= k)
length-then f n ys k w h room then_rest =
    Appends->>= f (encode_length n) ys (append_length_operand f n) k w room
      (append_length_operand-Appends f n w h) then_rest

-- The last call of a function: `length` bytes, as many as fit the uint16_t.
data-last :
    (f : Fifo) (bytes : Bytes) (n : ℕ)
    → n < 2 ^ 16
    → IsWritable f
    → HasRoom f (length (tabulate n bytes))
    → Appends f (tabulate n bytes) (assert_put f bytes (u16 n))
data-last f bytes n h w room =
    rw (let e : u16 n ≡ n = omega arith in e)
      (assert_put-Appends f w bytes n (rw length-tabulate at room))

flagged-eq-control-read :
    (resp group : Bool) → flagged read_file_data_op resp group ≡ control 1 resp group
flagged-eq-control-read true true = refl
flagged-eq-control-read true false = refl
flagged-eq-control-read false true = refl
flagged-eq-control-read false false = refl

flagged-eq-control-write :
    (resp group : Bool) → flagged write_file_data_op resp group ≡ control 4 resp group
flagged-eq-control-write true true = refl
flagged-eq-control-write true false = refl
flagged-eq-control-write false true = refl
flagged-eq-control-write false false = refl

tag_request_control : (eop : Bool) → bit_or request_tag_op (bit eop * 2 ^ 7) ≡ control 52 false eop
tag_request_control true = refl
tag_request_control false = refl

module _ (f : Fifo) (w : IsWritable f) where
  -- `alp_append_tag_request_action` appends the operation with its flag, and the tag.
  pub append_tag_request_action-Appends :
      (tag_id : ℕ) (eop : Bool)
      → HasRoom f 2
      → Appends f (control 52 false eop ∷ tag_id ∷ []) (append_tag_request_action f tag_id eop)
  unfolding append_tag_request_action
  append_tag_request_action-Appends tag_id eop room =
      rw (tag_request_control eop)
        (byte-then f _ (tag_id ∷ []) _ w room (λ g w' r. assert_put_byte-Appends g w' tag_id r))

  -- `alp_append_file_offset_operand`
  pub append_file_offset_operand-Appends :
      (file_id offset : ℕ)
      → offset < 2 ^ 30
      → HasRoom f (length (encode_file_offset file_id offset))
      → Appends f (encode_file_offset file_id offset) (append_file_offset_operand f file_id offset)
  unfolding append_file_offset_operand
  append_file_offset_operand-Appends file_id offset h room =
      byte-then f file_id (encode_length offset) _ w room
        (λ g w' r. append_length_operand-Appends g offset w' h r)

module _ (f : Fifo) (w : IsWritable f) where
  -- `alp_append_read_file_data_action` appends the request to read `n` bytes at an offset of a file.
  pub append_read_file_data_action-Appends :
      (file_id offset n : ℕ) (resp group : Bool)
      → offset < 2 ^ 30
      → n < 2 ^ 30
      → HasRoom f
          (length (control 1 resp group ∷ encode_file_offset file_id offset ++ encode_length n))
      → Appends f
          (control 1 resp group ∷ encode_file_offset file_id offset ++ encode_length n)
          (append_read_file_data_action f file_id offset n resp group)
  unfolding append_read_file_data_action
  append_read_file_data_action-Appends file_id offset n resp group h k room =
      rw (flagged-eq-control-read resp group) (
        byte-then f _ (encode_file_offset file_id offset ++ encode_length n) _ w room (λ g w' r.
          Appends->>= g (encode_file_offset file_id offset) (encode_length n) _ _ w' r
            (append_file_offset_operand-Appends g w' file_id offset h)
            (λ g' w'' r'. append_length_operand-Appends g' n w'' k r')))

  -- `alp_append_write_file_data_action` appends the request to write the `n` bytes.
  pub append_write_file_data_action-Appends :
      (file_id offset n : ℕ) (bytes : Bytes) (resp group : Bool)
      → offset < 2 ^ 30
      → n < 2 ^ 16
      → HasRoom f (length (control 4 resp group ∷ encode_file_data file_id offset n bytes))
      → Appends f
          (control 4 resp group ∷ encode_file_data file_id offset n bytes)
          (append_write_file_data_action f file_id offset n bytes resp group)
  unfolding append_write_file_data_action
  append_write_file_data_action-Appends file_id offset n bytes resp group h k room =
      rw (flagged-eq-control-write resp group) (
        byte-then f _ (encode_file_data file_id offset n bytes) _ w room (λ g w' r.
          Appends->>= g (encode_file_offset file_id offset) (encode_length n ++ tabulate n bytes) _
            _ w' r (append_file_offset_operand-Appends g w' file_id offset h)
            (λ g' w'' r'.
              length-then g' n (tabulate n bytes) _ w'' (omega arith) r'
                (λ g3 w3 r3. data-last g3 bytes n k w3 r3))))

  -- `alp_append_return_file_data_action` appends the unsolicited report of the `n` bytes.
  pub append_return_file_data_action-Appends :
      (file_id offset n : ℕ) (bytes : Bytes)
      → offset < 2 ^ 30
      → n < 2 ^ 16
      → HasRoom f (length (32 ∷ encode_file_data file_id offset n bytes))
      → Appends f
          (32 ∷ encode_file_data file_id offset n bytes)
          (append_return_file_data_action f file_id offset n bytes)
  unfolding append_return_file_data_action
  append_return_file_data_action-Appends file_id offset n bytes h k room =
      byte-then f 32 (encode_file_data file_id offset n bytes) _ w room (λ g w' r.
        byte-then g file_id (encode_length offset ++ (encode_length n ++ tabulate n bytes)) _ w' r
          (λ g' w'' r'.
            length-then g' offset (encode_length n ++ tabulate n bytes) _ w'' h r' (λ g3 w3 r3.
              length-then g3 n (tabulate n bytes) _ w3 (omega arith) r3
                (λ g4 w4 r4. data-last g4 bytes n k w4 r4))))
