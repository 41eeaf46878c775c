-- ===== src/Alp/Forwarding.antt =====
-- `alp_append_forward_action` against the encoding of the interface configurations.
use riot_oss7_modem.Common.{
  ℕ, inl, inr, Bool-cases, ◌==◌, ◌≡◌, List, [], ◌∷◌, ◌++◌, tabulate, length, length-tabulate,
  Outcome, ◌>>=◌, arith,
}
use riot_oss7_modem.Common.Memory.{Bytes}
use riot_oss7_modem.Fifo.{Fifo}
use riot_oss7_modem.Fifo.Put.{IsWritable, HasRoom}
use riot_oss7_modem.Alp.{
  word_bytes, bswap32, D7apSessionConfig, LorawanSessionConfigAbp, LorawanSessionConfigOtaa,
}
use riot_oss7_modem.Alp.Append.{
  assert_put, append_forward_action, append_forward_header, append_d7asp_config, append_abp_config,
  append_otaa_config, append_config, ForwardConfig,
}
use riot_oss7_modem.Alp.Encoding.{
  encode_forward, encode_config, encode_d7asp, encode_abp, encode_otaa, encode_big_endian,
}
use riot_oss7_modem.Alp.Appended.{Appends, Appends->>=, assert_put-Appends, assert_put_byte-Appends}
use riot_oss7_modem.Alp.Appending.{byte-then, bytes-then}

bytes-last :
    (f : Fifo) (bytes : Bytes) (n : ℕ)
    → IsWritable f
    → HasRoom f (length (tabulate n bytes))
    → Appends f (tabulate n bytes) (assert_put f bytes n)
bytes-last f bytes n w room = assert_put-Appends f w bytes n (rw length-tabulate at room)

swapped_word : (word : ℕ) → tabulate 4 (word_bytes (bswap32 word)) ≡ encode_big_endian word
swapped_word word = ground arith

word-last :
    (f : Fifo) (word : ℕ)
    → IsWritable f
    → HasRoom f 4
    → Appends f (encode_big_endian word) (assert_put f (word_bytes (bswap32 word)) 4)
word-last f word w room =
    rw (← swapped_word word) (assert_put-Appends f w (word_bytes (bswap32 word)) 4 room)

-- A word in network order, then the rest.
word-then :
    (f : Fifo) (word : ℕ) (ys : List ℕ) (k : Fifo → Outcome Fifo)
    → IsWritable f
    → HasRoom f (length (encode_big_endian word ++ ys))
    → ((g : Fifo) → IsWritable g → HasRoom g (length ys) → Appends g ys (k g))
    → Appends f (encode_big_endian word ++ ys) (assert_put f (word_bytes (bswap32 word)) 4 >>= k)
word-then f word ys k w room then_rest =
    Appends->>= f (encode_big_endian word) ys (assert_put f (word_bytes (bswap32 word)) 4) k w room
      (word-last f word w) then_rest

module _ (f : Fifo) (w : IsWritable f) where
  append_d7asp_config-Appends :
      (c : D7apSessionConfig)
      → HasRoom f (length (encode_d7asp c))
      → Appends f (encode_d7asp c) (append_d7asp_config f c)
  unfolding append_d7asp_config
  append_d7asp_config-Appends c room = byte-then f c.qos _ _ w room (λ g1 w1 r1.
      byte-then g1 c.dormant_timeout _ _ w1 r1 (λ g2 w2 r2.
        byte-then g2 c.addressee_ctrl _ _ w2 r2 (λ g3 w3 r3.
          byte-then g3 c.access_class _ _ w3 r3 (λ g4 w4 r4. bytes-last g4 c.id _ w4 r4))))

  append_abp_config-Appends :
      (c : LorawanSessionConfigAbp)
      → HasRoom f (length (encode_abp c))
      → Appends f (encode_abp c) (append_abp_config f c)
  unfolding append_abp_config
  append_abp_config-Appends c room = byte-then f _ _ _ w room (λ g1 w1 r1.
      byte-then g1 c.application_port _ _ w1 r1 (λ g2 w2 r2.
        bytes-then g2 c.nwk_s_key 16 _ _ w2 r2 (λ g3 w3 r3.
          bytes-then g3 c.app_s_key 16 _ _ w3 r3 (λ g4 w4 r4.
            word-then g4 c.dev_addr _ _ w4 r4 (λ g5 w5 r5. word-last g5 c.network_id w5 r5)))))

  append_otaa_config-Appends :
      (c : LorawanSessionConfigOtaa)
      → HasRoom f (length (encode_otaa c))
      → Appends f (encode_otaa c) (append_otaa_config f c)
  unfolding append_otaa_config
  append_otaa_config-Appends c room = byte-then f _ _ _ w room (λ g1 w1 r1.
      byte-then g1 c.application_port _ _ w1 r1 (λ g2 w2 r2.
        bytes-then g2 c.dev_eui 8 _ _ w2 r2 (λ g3 w3 r3.
          bytes-then g3 c.app_eui 8 _ _ w3 r3 (λ g4 w4 r4. bytes-last g4 c.app_key 16 w4 r4))))

module _ (f : Fifo) (w : IsWritable f) where
  append_forward_header-Appends :
      (itf_id : ℕ) (ys : List ℕ) (k : Fifo → Outcome Fifo)
      → HasRoom f (length (50 ∷ itf_id ∷ ys))
      → ((g : Fifo) → IsWritable g → HasRoom g (length ys) → Appends g ys (k g))
      → Appends f (50 ∷ itf_id ∷ ys) (append_forward_header f itf_id >>= k)
  unfolding append_forward_header
  append_forward_header-Appends itf_id ys k room then_rest =
      Appends->>= f (50 ∷ itf_id ∷ []) ys (append_forward_header f itf_id) k w room
        (λ r.
          byte-then f 50 (itf_id ∷ []) _ w r (λ g w' r'. assert_put_byte-Appends g w' itf_id r'))
        then_rest

  append_config-Appends :
      (itf_id : ℕ) (config : ForwardConfig) (config_len : ℕ)
      → HasRoom f (length (encode_config itf_id config config_len))
      → Appends f
          (encode_config itf_id config config_len)
          (append_config f itf_id config config_len)
  unfolding append_config
  append_config-Appends itf_id config config_len room = elim (Bool-cases (itf_id == 0xd7)) [
    | inl a ↦ rw a (append_d7asp_config-Appends f w config.d7asp (rw a at room))
    | inr a ↦ elim (Bool-cases (itf_id == 0x02)) [
      | inl b ↦ rw (a, b) (append_abp_config-Appends f w config.abp (rw (a, b) at room))
      | inr b ↦ elim (Bool-cases (itf_id == 0x03)) [
        | inl c ↦ rw (a, b, c) (append_otaa_config-Appends f w config.otaa (rw (a, b, c) at room))
        | inr c ↦ rw (a, b, c) (bytes-last f config.bytes config_len w (rw (a, b, c) at room))
      ]
    ]
  ]

-- On a writable fifo that has room for them, `alp_append_forward_action` appends the operation, the
-- interface, and the configuration that goes with it: for DASH7 with an id of the length that the addressee's
-- type has, for LoRaWAN with the address and the network id in network order, and for any other
-- interface the given number of bytes.
pub append_forward_action-Appends :
    (f : Fifo) (w : IsWritable f) (itf_id : ℕ) (config : ForwardConfig) (config_len : ℕ)
    → HasRoom f (length (encode_forward itf_id config config_len))
    → Appends f
        (encode_forward itf_id config config_len)
        (append_forward_action f itf_id config config_len)
unfolding append_forward_action
append_forward_action-Appends f w itf_id config config_len room =
    append_forward_header-Appends f w itf_id (encode_config itf_id config config_len) _ room
      (λ g w' r. append_config-Appends g w' itf_id config config_len r)
