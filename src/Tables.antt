-- ===== src/Tables.antt =====
-- The data tables of src/sdparm_data.c and src/sdparm_data_vendor.c.
pub mod Types
pub mod Consts
pub mod Descs
pub mod DiskItems
pub mod ControlItems
pub mod TapeItems
pub mod PowerItems
pub mod ChangerItems
pub mod TransportItems
pub mod SasItems
pub mod DiskVendorItems
pub mod TapeVendorItems
pub mod GenericPages
pub mod TransportPages
pub mod VendorPages
pub mod VpdPages
pub mod Registry
