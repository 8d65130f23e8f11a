-- ===== src/Examples/VpdQuiet.antt =====
-- A run of decode_dev_ids_quiet.
use sdparm.Prelude.{ℕ, Bool, List, [], ◌∷◌, ◌≡◌, refl, ◌==◌}
use sdparm.Prelude.Int.{pos, negsuc}
use sdparm.SgLib.Model.{sample_lib}
use sdparm.Vpd.{ended}
use sdparm.Vpd.Designators.{designator_at, dev_id_round, dev_id_loop, decode_dev_ids}
use sdparm.Vpd.Quiet.{
  hex_port, hex, at, decode_dev_ids_quiet, quiet_loop, quiet_round, show_designator, show_naa,
  sas_port, relative_port,
}
use sdparm.Vpd.QuietKeeps.{count, printed}
use sdparm.Vpd.QuietWhole.{all_wanted, decode_dev_ids_quiet-count}

-- Two NAA designators of SAS target ports, and the relative target port of the second.
abbrev two_ports : List ℕ
two_ports =
    0x61
    ∷ (0x93
        ∷ (0
            ∷ (8
                ∷ (0x50
                    ∷ (0
                        ∷ (0xc5
                            ∷ (0
                                ∷ (1
                                    ∷ (2
                                        ∷ (3
                                            ∷ (4
                                                ∷ (0x61
                                                    ∷ (0x93
                                                        ∷ (0
                                                            ∷ (8
                                                            ∷ (0x50
                                                            ∷ (0
                                                            ∷ (0xc5
                                                            ∷ (0
                                                            ∷ (1
                                                            ∷ (2
                                                            ∷ (3
                                                            ∷ (5
                                                            ∷ (0x61
                                                            ∷ (0x94
                                                            ∷ (0
                                                            ∷ (4
                                                            ∷ (0
                                                            ∷ (0
                                                            ∷ (0
                                                            ∷ (2 ∷ [])))))))))))))))))))))))))))))))

abbrev ends_in_4 : List ℕ → Bool
ends_in_4 s = at s 7 == 4

two_ports_end : (decode_dev_ids sample_lib (pos 1) (negsuc 0) (negsuc 0) two_ports).1 ≡ ended
unfolding decode_dev_ids dev_id_loop dev_id_round designator_at sample_lib
two_ports_end = refl

two_ports_quiet : decode_dev_ids_quiet sample_lib (pos 1) (negsuc 0) (negsuc 0) two_ports ≡ (
  hex (0x50 ∷ (0 ∷ (0xc5 ∷ (0 ∷ (1 ∷ (2 ∷ (3 ∷ (4 ∷ []))))))))
      ∷ (hex_port (0x50 ∷ (0 ∷ (0xc5 ∷ (0 ∷ (1 ∷ (2 ∷ (3 ∷ (5 ∷ [])))))))) 2 ∷ []),
  ended,
)
unfolding decode_dev_ids_quiet quiet_loop quiet_round designator_at show_designator show_naa
    sas_port relative_port sample_lib
two_ports_quiet = refl

decode_dev_ids_quiet-count_example :
    (printed ends_in_4 (decode_dev_ids_quiet sample_lib (pos 1) (negsuc 0) (negsuc 0) two_ports).0
      ≡ count ends_in_4
          (all_wanted (decode_dev_ids sample_lib (pos 1) (negsuc 0) (negsuc 0) two_ports).0))
    × ((decode_dev_ids_quiet sample_lib (pos 1) (negsuc 0) (negsuc 0) two_ports).1 ≡ ended)
decode_dev_ids_quiet-count_example =
    decode_dev_ids_quiet-count ends_in_4 sample_lib (pos 1) (negsuc 0) (negsuc 0) two_ports refl
      two_ports_end
