-- ===== src/Alp/Tests.antt =====
-- ALP at concrete commands and replies.
use riot_oss7_modem.Common.{
  ℕ, ◌+◌, ◌≡◌, inl, refl, true, false, List, [], ◌∷◌, tabulate, length, get_or, some, Outcome, done,
  arith,
}
use riot_oss7_modem.Common.Memory.{Bytes}
use riot_oss7_modem.Fifo.{Fifo}
use riot_oss7_modem.Fifo.Put.{IsWritable}
use riot_oss7_modem.Alp.{
  addressee_id_length, id_type, D7apSessionConfig, return_file_data, write_file_data, return_status,
  FileData,
}
use riot_oss7_modem.Alp.Append.{
  append_return_file_data_action, append_write_file_data_action, ForwardConfig,
  append_forward_action,
}
use riot_oss7_modem.Alp.Parse.{parse_length_operand, parse_action}
use riot_oss7_modem.Alp.Expect.{expect_forward, get_expected_response_length}
use riot_oss7_modem.Alp.Front.{Holds}
use riot_oss7_modem.Alp.Appended.{Appends}
use riot_oss7_modem.Alp.Forwarding.{append_forward_action-Appends}
use riot_oss7_modem.Alp.Operand.{parse_length_operand_lem}
use riot_oss7_modem.Alp.RoundTrip.{IsSame, file_data_round_trip}
use riot_oss7_modem.Alp.Status.{StatusFields, parse_status}
use riot_oss7_modem.Alp.Rounds.{get_expected_response_length_ends}
use riot_oss7_modem.Alp.Expecting.{expect_forward_skips}

abbrev filled : List ℕ → Fifo
filled bytes = record {
  head_idx = 0;
  tail_idx = length bytes;
  max_size = 255;
  buffer = λ i. get_or bytes i 0;
  is_subview = false;
}

abbrev stale : Bytes
stale i = 0xaa

abbrev pair : Bytes
pair k = k + 5

empty-IsWritable : IsWritable (filled [])
empty-IsWritable = record { valid = omega arith; own = refl }

-- An addressee with an id of eight bytes.
abbrev config : D7apSessionConfig
config = record { qos = 2; dormant_timeout = 0; addressee_ctrl = 0x20; access_class = 1; id = pair }

-- Where it lies, with anything in the other readings.
abbrev memory : ForwardConfig
memory = record {
  d7asp = config;
  abp = record {
    nwk_s_key = pair;
    app_s_key = pair;
    dev_addr = 0;
    network_id = 0;
    request_ack = false;
    application_port = 0;
  };
  otaa = record {
    dev_eui = pair;
    app_eui = pair;
    app_key = pair;
    request_ack = true;
    application_port = 0;
  };
  bytes = pair;
}

append_forward_action-Appends_example :
    Appends
      (filled [])
      (50 ∷ 0xd7 ∷ 2 ∷ 0 ∷ 0x20 ∷ 1 ∷ tabulate 8 pair)
      (append_forward_action (filled []) 0xd7 memory 12)
unfolding addressee_id_length id_type
append_forward_action-Appends_example =
    append_forward_action-Appends (filled []) empty-IsWritable 0xd7 memory 12 (inl (omega arith))

-- Three bytes on the wire.
parse_length_operand_lem_example :
    (g : Fifo) × (parse_length_operand (filled (0x81 ∷ 2 ∷ 3 ∷ 7 ∷ [])) ≡ (0x10302, g))
    × Holds g (7 ∷ [])
parse_length_operand_lem_example =
    parse_length_operand_lem (filled (0x81 ∷ 2 ∷ 3 ∷ 7 ∷ [])) 0x10203 (7 ∷ []) (omega arith)
      (omega arith, refl)

file_data_round_trip_example :
    ((h : Fifo) × (operand : FileData) × (g : Fifo) × (append_return_file_data_action
          (filled [])
          0x40
          300
          2
          pair
        ≡ done h)
      × (parse_action h stale ≡ done (return_file_data operand, g))
      × IsSame operand 0x40 300 2 pair
      × Holds g [])
    × ((h : Fifo) × (operand : FileData) × (g : Fifo) × (append_write_file_data_action
            (filled [])
            0x40
            300
            2
            pair
            true
            false
          ≡ done h)
        × (parse_action h stale ≡ done (write_file_data operand, g))
        × IsSame operand 0x40 300 2 pair
        × Holds g [])
file_data_round_trip_example =
    file_data_round_trip stale 0x40 300 2 pair empty-IsWritable refl (omega arith) (omega arith)
      (inl (omega arith)) true false

-- 256 bytes announced.
abbrev fields : StatusFields
fields = record {
  channel_header = 0;
  center_freq_high = 0;
  center_freq_low = 1;
  rx_level = 2;
  link_budget = 3;
  target_rx_level = 4;
  status = 5;
  fifo_token = 6;
  seqnr = 7;
  response_to = 8;
}

abbrev status_reply : Fifo
status_reply = filled (98 ∷ 0xd7 ∷ 0 ∷ 0 ∷ 1 ∷ 2 ∷ 3 ∷ 4 ∷ 5 ∷ 6 ∷ 7 ∷ 8 ∷ 0x30 ∷ 1 ∷ 5 ∷ 6 ∷ [])

parse_status_example :
    (g : Fifo) × (parse_action status_reply stale ≡ done (return_status stale, g)) × Holds g []
unfolding addressee_id_length id_type
parse_status_example = parse_status status_reply stale fields 0x30 1 pair [] (omega arith, refl)

-- A tag request, and a read of eight bytes.
abbrev read_command : Bytes
read_command k = get_or (180 ∷ 9 ∷ 65 ∷ 0x40 ∷ 0 ∷ 8 ∷ []) k 0

get_expected_response_length_ends_example :
    (r : Outcome ℕ) × (get_expected_response_length 0 read_command 6 ≡ some r)
get_expected_response_length_ends_example =
    get_expected_response_length_ends 0 read_command 6 (omega arith) (omega arith)

-- The configuration with a dormant timeout in which an id of eight bytes would be announced, for an addressee
-- without an id, and an action behind.
abbrev dormant : D7apSessionConfig
dormant = record {
  qos = 2;
  dormant_timeout = 0x20;
  addressee_ctrl = 0x10;
  access_class = 1;
  id = pair;
}

-- Four bytes are left where ten are skipped.
expect_forward_skips_example :
    Holds
      (expect_forward 0 (filled (0xd7 ∷ 2 ∷ 0x20 ∷ 0x10 ∷ 1 ∷ 52 ∷ 9 ∷ [])))
      (0x10 ∷ 1 ∷ 52 ∷ 9 ∷ [])
unfolding addressee_id_length id_type
expect_forward_skips_example =
    expect_forward_skips 0 (filled (0xd7 ∷ 2 ∷ 0x20 ∷ 0x10 ∷ 1 ∷ 52 ∷ 9 ∷ [])) dormant (52 ∷ 9 ∷ [])
      (omega arith, refl)
