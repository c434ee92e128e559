-- ===== src/Tests/Messages.antt =====
-- Messages of protocol/tmsxx.c at concrete values.
use tmsxx_tc.Prelude.{
  ◌+◌, ◌*◌, ◌≤◌, ◌≡◌, refl, true, none, some, List, [], ◌∷◌, ◌++◌, length, replicate, take, arith,
}
use tmsxx_tc.Prelude.Words.{sub32}
use tmsxx_tc.Glink.{GlinkBase, frame_bytes, frame_tail_tag, found, find_frame}
use tmsxx_tc.Glink.Wire.{htonl, store32, load32}
use tmsxx_tc.Devices.{blank}
use tmsxx_tc.Managers.{Manager, free_entry}
use tmsxx_tc.Forward.{transmit_to_dev}
use tmsxx_tc.Forward.Routes.{placed}
use tmsxx_tc.Messages.{wire, host, words, on_data, swapped, times, check_ptr}
use tmsxx_tc.Messages.Structures.{dev_port_items, RetDevType, ret_dev_type_items}
use tmsxx_tc.Messages.Device.{analyse_mcu_osw_switch, mcu_ret_device_type_v2, analyse_ret_dev_type}
use tmsxx_tc.Messages.Request.{Request, any_op, unite, analyser, shape, items, IsFit, sent}
use tmsxx_tc.Messages.Whole.{posted, find_frame-posted}
use tmsxx_tc.Messages.Understood.{analyser-sent}
use tmsxx_tc.Messages.Lists.{Cyctest, cyctest_row, rows, list_frame, analyse_list_frame}
use tmsxx_tc.Messages.Tables.{analyse_list_frame-list_frame, analyse_list_frame-short}
use tmsxx_tc.Messages.Registered.{transmit_to_dev-analyse_ret_dev_type}
use tmsxx_tc.Messages.Faults.{analyse_mcu_osw_switch-next, check_ptr_sound}

abbrev head : GlinkBase
head = record {
  pklen = 0;
  version = 0;
  src = 0x0b;
  dst = 0x3b;
  kind = 0;
  pkid = 5;
  reserve = 0;
  cmdid = 0;
  datalen = 0;
}

abbrev powers : Request
powers =
    any_op 1 3 3 0x80000016
      (record { port = 1; power = 500 } ∷ record { port = 2; power = 700 } ∷ [])

powers-IsFit : IsFit (shape powers)
powers-IsFit = (
  (omega arith, (omega arith, (omega arith, tt))),
  ((omega arith, (omega arith, tt)), ((omega arith, (omega arith, tt)), tt)),
)

powers_size : length (wire (items (shape powers))) ≡ 32
unfolding store32
powers_size = refl

find_frame-posted_example :
    (find_frame
        (λ i. 0)
        (frame_bytes
          (posted 0x0a 0x0e (λ i. 0) head 9 none powers).base
          (posted 0x0a 0x0e (λ i. 0) head 9 none powers).payload)
        72
      ≡ (found, 72))
    × ((posted 0x0a 0x0e (λ i. 0) head 9 none powers).payload ≡ wire (items (shape powers)))
find_frame-posted_example =
    find_frame-posted 0x0a 0x0e (λ i. 0) head 9 none powers powers-IsFit
      (omega (arith, powers_size))

-- A union of ports, whose analyser tests the bound of its entries.
abbrev union : Request
union =
    unite 1 3 3 0x80000017
      (record { any_port = 1; osw_frame = 0; osw_slot = 2; osw_type = 0; osw_port = 4 } ∷ [])

union-IsFit : IsFit (shape union)
union-IsFit = (
  (omega arith, (omega arith, (omega arith, tt))),
  ((omega arith, (omega arith, (omega arith, (omega arith, (omega arith, tt))))), tt),
)

union_size : length (wire (items (shape union))) ≡ 36
unfolding store32
union_size = refl

analyser-sent_example :
    analyser union 0x1000 76 (frame_bytes head (sent union))
    ≡ some (frame_bytes head (host (items (shape union))))
analyser-sent_example =
    analyser-sent head 0x1000 union union-IsFit (omega (arith, union_size))
      (omega (arith, union_size))

analyse_mcu_osw_switch-next_example :
    htonl (
      load32
        (analyse_mcu_osw_switch (
          frame_bytes head
            (wire (dev_port_items (record { frame = 1; slot = 3; kind = 4; port = 2 })))
          ++ frame_bytes head []))
        56)
    ≡ frame_tail_tag
analyse_mcu_osw_switch-next_example =
    analyse_mcu_osw_switch-next head head (record { frame = 1; slot = 3; kind = 4; port = 2 }) []

-- A manager with the address that the alarm is for.
abbrev managers : List Manager
managers = record free_entry { fd = 11; fd_addr = 0x3c } ∷ []

accepted : check_ptr 0x1024 16 20 2 0x105c ≡ true
unfolding sub32
accepted = refl

check_ptr_sound_example : 0x1024 + 16 + 20 * 2 ≤ 0x105c
check_ptr_sound_example =
    check_ptr_sound 0x1024 16 20 2 0x105c (omega arith) (omega arith) (omega arith) (omega arith)
      (omega arith) accepted

abbrev tests : List Cyctest
tests =
    record { frame = 1; slot = 3; kind = 5; port = 1; reserved0 = 0; iscyc = 1 }
    ∷ record { frame = 1; slot = 3; kind = 5; port = 2; reserved0 = 0; iscyc = 0 }
    ∷ []

analyse_list_frame-list_frame_example :
    analyse_list_frame 0x1000 92 24
      (frame_bytes head (take 52 (list_frame cyctest_row tests 24 0x80000059).memory))
    ≡ some (frame_bytes head (host (words (2 ∷ rows cyctest_row tests))))
analyse_list_frame-list_frame_example =
    analyse_list_frame-list_frame cyctest_row 24 (λ c. refl) (omega arith) tests
      (
        omega arith,
        (
          omega arith,
          (
            omega arith,
            (
              omega arith,
              (
                omega arith,
                (
                  omega arith,
                  (
                    omega arith,
                    (omega arith, (omega arith, (omega arith, (omega arith, (omega arith, tt))))),
                  ),
                ),
              ),
            ),
          ),
        ),
      )
      (omega arith) head 0x1000 0x80000059 (omega arith)

-- Two words where two rows of 24 bytes are announced.
analyse_list_frame-short_example :
    analyse_list_frame 0x1000 52 24 (frame_bytes head (wire (words (2 ∷ 7 ∷ 8 ∷ []))))
    ≡ some (
        on_data
          (λ bs. swapped ∷ times 12 (swapped ∷ []))
          (frame_bytes head (wire (words (2 ∷ 7 ∷ 8 ∷ [])))))
analyse_list_frame-short_example =
    analyse_list_frame-short head 0x1000 2 6 (7 ∷ 8 ∷ []) refl (omega arith) (omega arith)

abbrev card : RetDevType
card = record {
  frame = 1;
  slot = 3;
  kind = 5;
  port = 8;
  reserved0 = 0;
  reserved1 = 0;
  reserved2 = 0;
  reserved3 = 0;
}

transmit_to_dev-analyse_ret_dev_type_example :
    ((analyse_ret_dev_type
        (replicate 272 blank)
        9
        (frame_bytes head (take 32 (mcu_ret_device_type_v2 card).memory))).0
      ≡ frame_bytes head (host (ret_dev_type_items card)))
    × (transmit_to_dev
          (analyse_ret_dev_type
            (replicate 272 blank)
            9
            (frame_bytes head (take 32 (mcu_ret_device_type_v2 card).memory))).1
          (frame_bytes head (placed 1 3 (7 ∷ [])))
        ≡ some 9)
transmit_to_dev-analyse_ret_dev_type_example =
    transmit_to_dev-analyse_ret_dev_type (replicate 272 blank) 9 head head card (7 ∷ []) refl
      (
        omega arith,
        (
          omega arith,
          (
            omega arith,
            (omega arith, (omega arith, (omega arith, (omega arith, (omega arith, tt))))),
          ),
        ),
      )
      (omega arith) (omega arith)
