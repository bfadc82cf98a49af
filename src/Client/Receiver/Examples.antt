-- ===== src/Client/Receiver/Examples.antt =====
-- The theorem on the reorder buffer at a packet that comes too early.
use rtsp_sdk.Common.{◌≡◌, ℕ, refl, true, List, [], ◌∷◌, arith}
use rtsp_sdk.Client.Receiver.{Receiver, new_receiver}
use rtsp_sdk.Client.Receiver.Packet.{ingest_rtp_packet, lookup, run_step, note_arrival}
use rtsp_sdk.Common.Bytes.{read_be16}
use rtsp_sdk.Client.Receiver.Swapped.{ingest-swapped}
use rtsp_sdk.Client.Receiver.Reorder.{Tidy, ingest_rtp_packet-Tidy}

-- Packet 7 is waited for.
abbrev waiting : Receiver
waiting = record new_receiver { reorder_initialized = true; expected_seq = 7 }

waiting-Tidy : Tidy waiting
unfolding lookup
waiting-Tidy = record { settled = refl; bounded = omega arith }

abbrev early : List ℕ
early = 0x80 ∷ 96 ∷ 0 ∷ 9 ∷ 0 ∷ 0 ∷ 0 ∷ 1 ∷ 0 ∷ 0 ∷ 0 ∷ 2 ∷ 0x41 ∷ 5 ∷ []

ingest_rtp_packet-Tidy_example : Tidy (ingest_rtp_packet waiting early)
ingest_rtp_packet-Tidy_example = ingest_rtp_packet-Tidy waiting early waiting-Tidy

-- Packet 7 comes after packet 8.
abbrev seventh : List ℕ
seventh = 0x80 ∷ 96 ∷ 0 ∷ 7 ∷ 0 ∷ 0 ∷ 0 ∷ 1 ∷ 0 ∷ 0 ∷ 0 ∷ 2 ∷ 0x41 ∷ 5 ∷ []

abbrev eighth : List ℕ
eighth = 0x80 ∷ 96 ∷ 0 ∷ 8 ∷ 0 ∷ 0 ∷ 0 ∷ 1 ∷ 0 ∷ 0 ∷ 0 ∷ 2 ∷ 0x41 ∷ 6 ∷ []

ingest-swapped_example :
    (ingest_rtp_packet (ingest_rtp_packet waiting eighth) seventh
      ≡ run_step (run_step (note_arrival (note_arrival waiting eighth) seventh) seventh) eighth)
    × ((ingest_rtp_packet (ingest_rtp_packet waiting eighth) seventh).reorder_buffer ≡ [])
unfolding read_be16
ingest-swapped_example =
    ingest-swapped waiting seventh eighth 7 refl refl refl (omega arith) (omega arith) (omega arith)
      (omega arith) refl refl
