-- ===== src/Tables/Registry.antt =====
-- The arrays of src/sdparm_data.c and src/sdparm_data_vendor.c that tie the tables together.
use mathlib.Core.List.{List, [], ◌∷◌, ◌++◌}
use mathlib.Core.Option.{none}
use sdparm.Tables.Types.{
  MpItem, TablePair, VendorName, ValDesc, Command, pair, vendor, val_desc, command,
}
use sdparm.Tables.DiskItems.{error_recovery_items, write_caching_items}
use sdparm.Tables.ControlItems.{control_items, hints_items}
use sdparm.Tables.TapeItems.{protection_items, tape_items}
use sdparm.Tables.PowerItems.{power_items, exceptions_items}
use sdparm.Tables.ChangerItems.{changer_items, extended_changer_items}
use sdparm.Tables.TransportItems.{fcp_items, spi_items, srp_items}
use sdparm.Tables.SasItems.{sas_port_items, sas_phy_items}
use sdparm.Tables.DiskVendorItems.{seagate_items, hitachi_items, maxtor_items, fujitsu_items}
use sdparm.Tables.TapeVendorItems.{lto5_items, lto6_items, nvme_items}
use sdparm.Tables.GenericPages.{gen_mode_pg}
use sdparm.Tables.TransportPages.{fcp_mode_pg, spi_mode_pg, srp_mode_pg, sas_mode_pg}
use sdparm.Tables.VendorPages.{
  seagate_mode_pg, hitachi_mode_pg, maxtor_mode_pg, fujitsu_mode_pg, lto5_mode_pg, lto6_mode_pg,
  nvme_mode_pg,
}

-- `sdparm_mitem_arr`, whole.
unfoldable pub mitem_arr : List MpItem
unfolding error_recovery_items write_caching_items control_items hints_items protection_items
    tape_items power_items exceptions_items changer_items extended_changer_items
mitem_arr =
    error_recovery_items
    ++ (write_caching_items
        ++ (control_items
            ++ (hints_items
                ++ (protection_items
                    ++ (tape_items
                        ++ (power_items
                            ++ (exceptions_items ++ (changer_items ++ extended_changer_items))))))))

-- `sdparm_mitem_sas_arr`, whole.
unfoldable pub mitem_sas_arr : List MpItem
unfolding sas_port_items sas_phy_items
mitem_sas_arr = sas_port_items ++ sas_phy_items

abbrev no_pair : TablePair
no_pair = record { mpage = none; mitem = none }

-- Indexed by the transport protocol; 15 is treated as generic.
unfoldable pub transport_mp : List TablePair
transport_mp =
    pair fcp_mode_pg fcp_items
    ∷ pair spi_mode_pg spi_items
    ∷ no_pair
    ∷ no_pair
    ∷ pair srp_mode_pg srp_items
    ∷ no_pair
    ∷ pair sas_mode_pg mitem_sas_arr
    ∷ no_pair
    ∷ no_pair
    ∷ no_pair
    ∷ no_pair
    ∷ no_pair
    ∷ no_pair
    ∷ no_pair
    ∷ no_pair
    ∷ pair gen_mode_pg mitem_arr
    ∷ []

-- Indexed by the vendor.
unfoldable pub vendor_mp : List TablePair
vendor_mp =
    pair seagate_mode_pg seagate_items
    ∷ pair hitachi_mode_pg hitachi_items
    ∷ pair maxtor_mode_pg maxtor_items
    ∷ pair fujitsu_mode_pg fujitsu_items
    ∷ pair gen_mode_pg mitem_arr
    ∷ pair lto5_mode_pg lto5_items
    ∷ pair lto6_mode_pg lto6_items
    ∷ pair nvme_mode_pg nvme_items
    ∷ no_pair
    ∷ []

unfoldable pub transport_id : List ValDesc
transport_id =
    val_desc 0 "fcp"
    ∷ val_desc 1 "spi"
    ∷ val_desc 2 "ssa"
    ∷ val_desc 3 "sbp"
    ∷ val_desc 4 "srp"
    ∷ val_desc 5 "iscsi"
    ∷ val_desc 6 "sas"
    ∷ val_desc 7 "adt"
    ∷ val_desc 8 "ata"
    ∷ val_desc 9 "uas"
    ∷ val_desc 0xa "sop"
    ∷ val_desc 0xb "pcie"
    ∷ val_desc 0xc "u0xc"
    ∷ val_desc 0xd "u0xd"
    ∷ val_desc 0xe "u0xe"
    ∷ val_desc 0xf "none"
    ∷ []

unfoldable pub add_transport_acron : List ValDesc
add_transport_acron =
    val_desc 1 "para"
    ∷ val_desc 6 "spl"
    ∷ val_desc 0xb "nvme"
    ∷ val_desc 8 "sata"
    ∷ val_desc 4 "ib"
    ∷ val_desc 9 "usb"
    ∷ []

unfoldable pub vendor_ids : List VendorName
vendor_ids =
    vendor 0 "sea" "Seagate disk"
    ∷ vendor 1 "hit" "Hitachi disk"
    ∷ vendor 1 "wdc" "Hitachi disk->HGST->WDC"
    ∷ vendor 2 "max" "Maxtor disk"
    ∷ vendor 3 "fuj" "Fujitsu disk"
    ∷ vendor 4 "none" "maps back to generic mode pages"
    ∷ vendor 5 "lto5" "LTO-5 tape drive (IBM, HP)"
    ∷ vendor 6 "lto6" "LTO-6 tape drive (IBM, HP)"
    ∷ vendor 7 "nvme" "NVMe, SNTL in library"
    ∷ vendor 8 "sg" "sg3_utils package defined"
    ∷ []

-- `sdparm_command_arr`; its last column is only printed.
unfoldable pub command_arr : List Command
command_arr =
    command 9 "capacity" "ca"
    ∷ command 5 "eject" "ej"
    ∷ command 4 "load" "lo"
    ∷ command 11 "profile" "pr"
    ∷ command 1 "ready" "re"
    ∷ command 7 "sense" "se"
    ∷ command 10 "speed" "sp"
    ∷ command 2 "start" "sta"
    ∷ command 3 "stop" "sto"
    ∷ command 8 "sync" "sy"
    ∷ command 6 "unlock" "un"
    ∷ []
