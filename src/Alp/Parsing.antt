-- ===== src/Alp/Parsing.antt =====
-- `alp_parse_action` on the encodings of the actions that the modem sends.
use riot_oss7_modem.Common.{
  ℕ, ◌/◌, ◌%◌, ◌^◌, ◌<◌, ◌≡◌, ◌≢◌, refl, ap, ◌∙◌, Bool, true, false, not, List, ◌∷◌, ◌++◌,
  append_assoc, tabulate, length-tabulate, leb, ◌==◌, if◌then◌else◌, u16, done, fault, assertion,
  ◌>>◌, arith,
}
use riot_oss7_modem.Common.Memory.{Bytes, advance}
use riot_oss7_modem.Fifo.{Fifo}
use riot_oss7_modem.Alp.{write_file_data, return_file_data, return_tag, FileData, FileOffset}
use riot_oss7_modem.Alp.Encoding.{control, encode_length, encode_file_offset, encode_file_data}
use riot_oss7_modem.Alp.Parse.{
  assert, parse_file_offset_operand, parse_operand_file_data, pop_file_data, parse_op_return_tag,
  parse_operation, parse_action,
}
use riot_oss7_modem.Alp.Front.{Holds, pop_front, assert_pop_byte_front}
use riot_oss7_modem.Alp.Operand.{received, parse_length_operand_lem}

control_fields :
    (op : ℕ) (b6 b7 : Bool)
    → op < 64
    → (control op b6 b7 % 2 ^ 6 ≡ op)
      × ((control op b6 b7 / 2 ^ 6 % 2 == 1) ≡ b6)
      × (not (control op b6 b7 / 2 ^ 7 == 0) ≡ b7)
control_fields op true true h = ground arith
control_fields op true false h = ground arith
control_fields op false true h = ground arith
control_fields op false false h = ground arith

-- The control byte selects the operation, and its flags are handed on.
pub dispatch :
    (f : Fifo) (stale : Bytes) (op : ℕ) (b6 b7 : Bool) (rest : List ℕ)
    → op < 64
    → Holds f (control op b6 b7 ∷ rest)
    → (g : Fifo) × (parse_action f stale ≡ parse_operation g stale op b6 b7) × Holds g rest
unfolding parse_action
dispatch f stale op b6 b7 rest h holds =
    let (g, ran, holds') = assert_pop_byte_front f (control op b6 b7) rest holds in
    let (o, x, y) = control_fields op b6 b7 h in (g, rw (ran, o, x, y) refl, holds')

-- On a tag response, `alp_parse_action` returns its tag with the two flags of the control byte, and
-- leaves what follows.
pub parse_tag_response :
    (f : Fifo) (stale : Bytes) (error completed : Bool) (tag_id : ℕ) (rest : List ℕ)
    → Holds f (control 35 error completed ∷ tag_id ∷ rest)
    → (g : Fifo) × (parse_action f stale
        ≡ done (return_tag (record { completed = completed; error = error; tag_id = tag_id }), g))
      × Holds g rest
unfolding parse_operation parse_op_return_tag
parse_tag_response f stale error completed tag_id rest h =
    let (g, ran, holds) = dispatch f stale 35 error completed (tag_id ∷ rest) (omega arith) h in
    let (g', ran', holds') = assert_pop_byte_front g tag_id rest holds in
    (g', ran ∙ rw ran' refl, holds')

-- A parsed file data operand.
pub record FileDataRead (operand : FileData) (file_id offset n : ℕ) (bytes : Bytes) : Type 0 where
  pub same_file : operand.file_offset.file_id ≡ file_id
  pub same_offset : operand.file_offset.offset ≡ received offset
  pub same_length : operand.provided_data_length ≡ n
  pub same_bytes : tabulate n operand.bytes ≡ tabulate n bytes

pop_file_data_front :
    (f : Fifo) (stale : Bytes) (file_offset : FileOffset) (n : ℕ) (bytes : Bytes) (rest : List ℕ)
    → n < 256
    → Holds f (tabulate n bytes ++ rest)
    → (operand : FileData) × (g : Fifo) × (pop_file_data f file_offset n stale ≡ (operand, g))
      × (operand.file_offset ≡ file_offset)
      × (operand.provided_data_length ≡ n)
      × (tabulate n operand.bytes ≡ tabulate n bytes)
      × Holds g rest
unfolding pop_file_data
pop_file_data_front f stale file_offset n bytes rest h holds =
    let p = pop_front f (advance stale 12) (tabulate n bytes) rest holds in
    let e : u16 n ≡ n = omega arith in
    let ran = rw length-tabulate at p.ran in
    (
      record { file_offset = file_offset; provided_data_length = n; bytes = p.filled },
      p.fifo,
      rw e (
          ap
            (λ r.
              (record { file_offset = file_offset; provided_data_length = n; bytes = r.1 }, r.2))
            ran),
      refl,
      refl,
      rw length-tabulate at p.read,
      p.holds,
    )

-- The first two operands.
file_offset_front :
    (f : Fifo) (file_id offset : ℕ) (rest : List ℕ)
    → offset < 2 ^ 30
    → Holds f (file_id ∷ encode_length offset ++ rest)
    → (g : Fifo) × (parse_file_offset_operand f
        ≡ done (record { file_id = file_id; offset = received offset }, g))
      × Holds g rest
unfolding parse_file_offset_operand
file_offset_front f file_id offset rest k h =
    let (g, ran, holds) = assert_pop_byte_front f file_id (encode_length offset ++ rest) h in
    let (g', ran', holds') = parse_length_operand_lem g offset rest k holds in
    (g', rw ran (ap (λ r. done (record { file_id = file_id; offset = r.0 }, r.1)) ran'), holds')

-- The operand up to its data.
file_data_front :
    (f : Fifo) (stale : Bytes) (file_id offset n : ℕ) (rest : List ℕ)
    → offset < 2 ^ 30
    → n < 2 ^ 30
    → Holds f ((encode_file_offset file_id offset ++ encode_length n) ++ rest)
    → (g : Fifo) × (parse_operand_file_data f stale ≡ (
        assert (leb (received n) 255)
        >> done (
            pop_file_data g
              (record { file_id = file_id; offset = received offset })
              (received n)
              stale)))
      × Holds g rest
unfolding parse_operand_file_data
file_data_front f stale file_id offset n rest k l h =
    let (g, ran, holds) =
      file_offset_front f file_id offset (encode_length n ++ rest) k (rw append_assoc at h) in
    let (g', ran', holds') = parse_length_operand_lem g n rest l holds in
    let fo : FileOffset = record { file_id = file_id; offset = received offset } in
    (
      g',
      rw ran (ap (λ r. assert (leb r.0 255) >> done (pop_file_data r.1 fo r.0 stale)) ran'),
      holds',
    )

operand_read :
    (f : Fifo) (stale : Bytes) (file_id offset n : ℕ) (bytes : Bytes) (rest : List ℕ)
    → offset < 2 ^ 30
    → n < 256
    → Holds f (encode_file_data file_id offset n bytes ++ rest)
    → (operand : FileData) × (g : Fifo) × (parse_operand_file_data f stale ≡ done (operand, g))
      × FileDataRead operand file_id offset n bytes
      × Holds g rest
operand_read f stale file_id offset n bytes rest k l h =
    let (g, ran, holds) =
      file_data_front f stale file_id offset n (tabulate n bytes ++ rest) k (omega arith)
        (rw (← regroup) at h) in
    let (operand, g', ran', o, len, copied, holds') =
      pop_file_data_front g stale (record { file_id = file_id; offset = received offset }) n bytes
        rest l holds in
    let r : received n ≡ n = ground arith in
    let fits : leb n 255 ≡ true = ground arith in
    (
      operand,
      g',
      ran ∙ rw (r, fits) (ap done ran'),
      record {
        same_file = ap FileOffset.file_id o;
        same_offset = ap FileOffset.offset o;
        same_length = len;
        same_bytes = copied;
      },
      holds',
    )
  where
    regroup :
        (encode_file_offset file_id offset ++ encode_length n) ++ (tabulate n bytes ++ rest)
        ≡ encode_file_data file_id offset n bytes ++ rest
    regroup = simp append_assoc

-- On returned file data of at most 255 bytes, `alp_parse_action` hands on the file, the length and
-- the data, and the offset as the operand parser receives it; it leaves what follows.
pub parse_return_file_data :
    (f : Fifo) (stale : Bytes) (b6 b7 : Bool) (file_id offset n : ℕ) (bytes : Bytes) (rest : List ℕ)
    → offset < 2 ^ 30
    → n < 256
    → Holds f (control 32 b6 b7 ∷ encode_file_data file_id offset n bytes ++ rest)
    → (operand : FileData) × (g : Fifo) × (parse_action f stale
        ≡ done (return_file_data operand, g))
      × FileDataRead operand file_id offset n bytes
      × Holds g rest
unfolding parse_operation
parse_return_file_data f stale b6 b7 file_id offset n bytes rest k l h =
    let (g, ran, holds) = dispatch f stale 32 b6 b7 _ (omega arith) h in
    let (operand, g', ran', same, holds') =
      operand_read g stale file_id offset n bytes rest k l holds in
    (operand, g', ran ∙ rw ran' refl, same, holds')

-- The same of a request to write file data.
pub parse_write_file_data :
    (f : Fifo) (stale : Bytes) (b6 b7 : Bool) (file_id offset n : ℕ) (bytes : Bytes) (rest : List ℕ)
    → offset < 2 ^ 30
    → n < 256
    → Holds f (control 4 b6 b7 ∷ encode_file_data file_id offset n bytes ++ rest)
    → (operand : FileData) × (g : Fifo) × (parse_action f stale ≡ done (write_file_data operand, g))
      × FileDataRead operand file_id offset n bytes
      × Holds g rest
unfolding parse_operation
parse_write_file_data f stale b6 b7 file_id offset n bytes rest k l h =
    let (g, ran, holds) = dispatch f stale 4 b6 b7 _ (omega arith) h in
    let (operand, g', ran', same, holds') =
      operand_read g stale file_id offset n bytes rest k l holds in
    (operand, g', ran ∙ rw ran' refl, same, holds')

-- A file data operand whose length parses to more than 255 stops the program, in a reply and in a
-- request alike, whatever follows it.
pub parse_oversized :
    (f : Fifo) (stale : Bytes) (reply b6 b7 : Bool) (file_id offset n : ℕ) (rest : List ℕ)
    → offset < 2 ^ 30
    → n < 2 ^ 30
    → 255 < received n
    → Holds f (
        control (if reply then 32 else 4) b6 b7
          ∷ (encode_file_offset file_id offset ++ encode_length n)
        ++ rest)
    → parse_action f stale ≡ fault assertion
unfolding parse_operation
parse_oversized f stale true b6 b7 file_id offset n rest k l big h =
    let (g, ran, holds) = dispatch f stale 32 b6 b7 _ (omega arith) h in
    let (g', ran', _) = file_data_front g stale file_id offset n rest k l holds in
    let over : leb (received n) 255 ≡ false = ground arith in ran ∙ rw (ran', over) refl
parse_oversized f stale false b6 b7 file_id offset n rest k l big h =
    let (g, ran, holds) = dispatch f stale 4 b6 b7 _ (omega arith) h in
    let (g', ran', _) = file_data_front g stale file_id offset n rest k l holds in
    let over : leb (received n) 255 ≡ false = ground arith in ran ∙ rw (ran', over) refl

-- An action with any other operation stops the program.
pub parse_unknown :
    (f : Fifo) (stale : Bytes) (op : ℕ) (b6 b7 : Bool) (rest : List ℕ)
    → op < 64
    → op ≢ 4
    → op ≢ 32
    → op ≢ 34
    → op ≢ 35
    → Holds f (control op b6 b7 ∷ rest)
    → parse_action f stale ≡ fault assertion
unfolding parse_operation
parse_unknown f stale op b6 b7 rest k n4 n32 n34 n35 h =
    let (g, ran, holds) = dispatch f stale op b6 b7 rest k h in ran ∙ ground arith
