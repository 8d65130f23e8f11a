-- ===== src/Examples/Vpd.antt =====
-- Runs of the decoders of VPD pages.
use sdparm.Prelude.{false, length, ◌≡◌, ◌∷◌, [], ◌++◌, map, refl, arith, ℕ, List}
use sdparm.Prelude.Int.{pos, negsuc}
use sdparm.Prelude.Text.{codes}
use sdparm.SgLib.Model.{sample_lib, sample_laws}
use sdparm.Vpd.{ended, over_read, short_descriptor, each}
use sdparm.Vpd.Walk.{bytes_of}
use sdparm.Vpd.Stride.{
  block_len_round, decode_sup_block_lens_vpd, decode_cga_profile_vpd, decode_con_pos_range_vpd,
  decode_feature_sets_vpd,
}
use sdparm.Vpd.OverRead.{page_end, decode_sup_block_lens_vpd-page_end}
use sdparm.Vpd.Checked.{
  decode_mode_policy_vpd, decode_power_consumption_vpd, decode_mode_policy_vpd-page_end, show_power,
  shown_microwatts, microwatts, show_power-microwatts,
}
use sdparm.Vpd.Designators.{decode_dev_ids, IsListed, decode_dev_ids-IsListed}
use sdparm.Vpd.Network.{
  Service, url, no_addr, layout, addr_bytes, shown_service, decode_man_net_vpd,
  decode_man_net_vpd-layout,
}
use sdparm.Vpd.PortLayout.{
  SasPort, sas_bytes, phy_bytes, shown_port, decode_proto_port_vpd-sas_bytes,
}
use sdparm.Vpd.Ports.{decode_proto_port_vpd}
use sdparm.Vpd.ScsiPorts.{
  PortPair, pair_bytes, shown_pair, decode_scsi_ports_vpd, decode_scsi_ports_vpd-pair_bytes,
}

abbrev page_header : List ℕ
page_header = 0 ∷ (0x88 ∷ (0 ∷ (0 ∷ [])))

-- One descriptor of a supported block length and three bytes of another.
abbrev cut_page : List ℕ
cut_page = page_header ++ (0 ∷ (0 ∷ (2 ∷ (0 ∷ (0x44 ∷ (1 ∷ (0 ∷ (0 ∷ (0 ∷ (0 ∷ (2 ∷ [])))))))))))

cut_page_over_read : (decode_sup_block_lens_vpd sample_lib cut_page).1 ≡ over_read
unfolding decode_sup_block_lens_vpd each block_len_round
cut_page_over_read = refl

decode_sup_block_lens_vpd-page_end_example :
    ((decode_cga_profile_vpd sample_lib cut_page).1 ≡ page_end 4 4 4 4 over_read (length cut_page))
    × ((decode_sup_block_lens_vpd sample_lib cut_page).1
        ≡ page_end 4 4 8 6 over_read (length cut_page))
    × ((decode_con_pos_range_vpd sample_lib cut_page).1
        ≡ page_end 64 64 32 24 over_read (length cut_page))
    × ((decode_feature_sets_vpd sample_lib cut_page).1
        ≡ page_end 4 8 2 2 over_read (length cut_page))
decode_sup_block_lens_vpd-page_end_example = decode_sup_block_lens_vpd-page_end sample_lib cut_page

decode_mode_policy_vpd-page_end_example :
    ((decode_mode_policy_vpd cut_page).1 ≡ page_end 4 4 4 4 short_descriptor (length cut_page))
    × ((decode_power_consumption_vpd sample_lib cut_page).1
        ≡ page_end 4 4 4 4 short_descriptor (length cut_page))
decode_mode_policy_vpd-page_end_example = decode_mode_policy_vpd-page_end sample_lib cut_page

show_power-microwatts_example : shown_microwatts (show_power 1500 4) ≡ microwatts 1500 4
show_power-microwatts_example = show_power-microwatts 1500 4 (omega arith)

-- An NAA designator of a target port.
abbrev naa_designator : List ℕ
naa_designator =
    0x61 ∷ (0x93 ∷ (0 ∷ (8 ∷ (0x50 ∷ (0 ∷ (0xc5 ∷ (0 ∷ (1 ∷ (2 ∷ (3 ∷ (4 ∷ [])))))))))))

decode_dev_ids-IsListed_example :
    IsListed naa_designator (decode_dev_ids sample_lib (pos 1) (negsuc 0) (negsuc 0) naa_designator)
decode_dev_ids-IsListed_example =
    decode_dev_ids-IsListed sample_lib sample_laws (pos 1) (negsuc 0) (negsuc 0) naa_designator
      (omega arith)

abbrev storage_service : Service
storage_service = record { kind = 1; number = 1; addr = url (codes "http://a") 3 }

abbrev silent_service : Service
silent_service = record { kind = 0; number = 2; addr = no_addr }

decode_man_net_vpd-layout_example :
    decode_man_net_vpd sample_lib false
      (page_header ++ bytes_of layout (storage_service ∷ (silent_service ∷ [])))
    ≡ (map (shown_service false) (storage_service ∷ (silent_service ∷ [])), ended)
unfolding addr_bytes
decode_man_net_vpd-layout_example =
    decode_man_net_vpd-layout sample_lib sample_laws false page_header
      (storage_service ∷ (silent_service ∷ [])) refl
      (
        (omega arith, omega arith, ground arith, omega arith),
        ((omega arith, omega arith, tt, omega arith), tt),
      )

abbrev wide_port : SasPort
wide_port = record {
  number = 2;
  pwr_d_s = 1;
  phy_list =
      record { phy_identifier = 4; ssp_persistent_capable = 1 }
      ∷ (record { phy_identifier = 5; ssp_persistent_capable = 0 } ∷ []);
}

decode_proto_port_vpd-sas_bytes_example :
    decode_proto_port_vpd sample_lib (page_header ++ bytes_of sas_bytes (wide_port ∷ []))
    ≡ (map shown_port (wide_port ∷ []), ended)
unfolding bytes_of phy_bytes
decode_proto_port_vpd-sas_bytes_example =
    decode_proto_port_vpd-sas_bytes sample_lib sample_laws page_header (wide_port ∷ []) refl
      ((omega arith, omega arith, omega arith, (omega arith, (omega arith, tt))), tt)

abbrev first_port : PortPair
first_port = record { number = 1; tid = 6 ∷ (0 ∷ []); target = naa_designator }

decode_scsi_ports_vpd-pair_bytes_example :
    decode_scsi_ports_vpd sample_lib (page_header ++ bytes_of pair_bytes (first_port ∷ []))
    ≡ (map (shown_pair sample_lib) (first_port ∷ []), ended)
decode_scsi_ports_vpd-pair_bytes_example =
    decode_scsi_ports_vpd-pair_bytes sample_lib sample_laws page_header (first_port ∷ []) refl
      ((omega arith, omega arith, omega arith), tt)
