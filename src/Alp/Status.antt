-- ===== src/Alp/Status.antt =====
-- `alp_parse_action` on an interface status.
use riot_oss7_modem.Common.{
  ℕ, ◌≡◌, ◌≢◌, ◌⊎◌, refl, ap, ◌∙◌, Bool, true, false, List, [], ◌∷◌, ◌++◌, tabulate,
  length-tabulate, done, fault, assertion, arith,
}
use riot_oss7_modem.Common.Memory.{Bytes}
use riot_oss7_modem.Fifo
use riot_oss7_modem.Fifo.{Fifo, success}
use riot_oss7_modem.Alp.{return_status, addressee_id_length, id_type}
use riot_oss7_modem.Alp.Encoding.{control}
use riot_oss7_modem.Alp.Parse.{
  drop_field, drop_fields, checked_id, parse_interface_status, parse_op_return_status,
  parse_operation, parse_action,
}
use riot_oss7_modem.Alp.Front.{
  Holds, pop_front, pop_byte_front, assert_pop_byte_front, drop_field_front,
}
use riot_oss7_modem.Alp.Parsing.{dispatch}

-- The fields in front of the addressee, in the order of the wire.
pub record StatusFields : Type 0 where
  pub channel_header : ℕ
  pub center_freq_high : ℕ
  pub center_freq_low : ℕ
  pub rx_level : ℕ
  pub link_budget : ℕ
  pub target_rx_level : ℕ
  pub status : ℕ
  pub fifo_token : ℕ
  pub seqnr : ℕ
  pub response_to : ℕ

abbrev pub encode_status_fields : StatusFields → List ℕ
encode_status_fields s =
    s.channel_header ∷ s.center_freq_high ∷ s.center_freq_low ∷ s.rx_level ∷ s.link_budget
    ∷ s.target_rx_level ∷ s.status ∷ s.fifo_token ∷ s.seqnr ∷ s.response_to ∷ []

abbrev pub encode_status : StatusFields → ℕ → ℕ → Bytes → List ℕ
encode_status s ctrl access_class id =
    encode_status_fields s
    ++ (ctrl ∷ access_class ∷ tabulate (addressee_id_length (id_type ctrl)) id)

drop_one : (f : Fifo) (x : ℕ) (rest : List ℕ) → Holds f (x ∷ rest) → Holds (drop_field 1 f) rest
drop_one f x rest h = drop_field_front f (x ∷ []) rest h

drop_fields_front :
    (f : Fifo) (s : StatusFields) (rest : List ℕ)
    → Holds f (encode_status_fields s ++ rest)
    → Holds (drop_fields f) rest
unfolding drop_fields
drop_fields_front f s rest h =
    let a = drop_one f _ _ h in
    let b = drop_field_front (drop_field 1 f) (s.center_freq_high ∷ s.center_freq_low ∷ []) _ a in
    drop_one _ _ _ (
      drop_one _ _ _
        (drop_one _ _ _ (drop_one _ _ _ (drop_one _ _ _ (drop_one _ _ _ (drop_one _ _ _ b))))))

interface_status_front :
    (f : Fifo) (stale : Bytes) (s : StatusFields) (ctrl access_class : ℕ) (id : Bytes)
    (rest : List ℕ)
    → Holds f (encode_status s ctrl access_class id ++ rest)
    → (g : Fifo) × (parse_interface_status f stale ≡ done g) × Holds g rest
unfolding parse_interface_status checked_id
interface_status_front f stale s ctrl access_class id rest h =
    let len = addressee_id_length (id_type ctrl) in
    let (g, ran, holds) =
      pop_byte_front (drop_fields f) (stale 13) ctrl (access_class ∷ tabulate len id ++ rest)
        (drop_fields_front f s _ h) in
    let p =
      pop_front (drop_field 1 g) (λ _. 0) (tabulate len id) rest
        (drop_one g access_class _ holds) in
    let ran' = rw length-tabulate at p.ran in
    (
      p.fifo,
      ap
            (λ r.
              checked_id (Fifo.pop (drop_field 1 r.1) (λ _. 0) (addressee_id_length (id_type r.0))))
            ran
          ∙ ap checked_id ran',
      p.holds,
    )

-- On a DASH7 interface status, `alp_parse_action` takes exactly its bytes off the fifo, with an id of
-- the length that the addressee's type has, and returns the union as it was: nothing of the status
-- reaches the caller.
pub parse_status :
    (f : Fifo) (stale : Bytes) (s : StatusFields) (ctrl access_class : ℕ) (id : Bytes)
    (rest : List ℕ)
    → Holds f (control 34 true false ∷ 0xd7 ∷ encode_status s ctrl access_class id ++ rest)
    → (g : Fifo) × (parse_action f stale ≡ done (return_status stale, g)) × Holds g rest
unfolding parse_operation parse_op_return_status
parse_status f stale s ctrl access_class id rest h =
    let (g, ran, holds) = dispatch f stale 34 true false _ (omega arith) h in
    let (g', ran', holds') = assert_pop_byte_front g 0xd7 _ holds in
    let (g'', ran'', holds'') =
      interface_status_front g' stale s ctrl access_class id rest holds' in
    (g'', ran ∙ rw (ran', ran'') refl, holds'')

-- A status with other flags, or of another interface, stops the program.
pub parse_status_refused :
    (f : Fifo) (stale : Bytes) (b6 b7 : Bool) (itf_id : ℕ) (rest : List ℕ)
    → Holds f (control 34 b6 b7 ∷ itf_id ∷ rest)
    → ((b6 ≡ false) ⊎ (b7 ≡ true) ⊎ (itf_id ≢ 0xd7))
    → parse_action f stale ≡ fault assertion
unfolding parse_operation parse_op_return_status
parse_status_refused f stale b6 b7 itf_id rest h why =
    let (g, ran, holds) = dispatch f stale 34 b6 b7 _ (omega arith) h in
    let (g', ran', holds') = assert_pop_byte_front g itf_id _ holds in ran ∙ ground arith
