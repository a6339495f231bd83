-- ===== src/GroupKeys.antt =====
-- src/group_keys: GTK, IGTK and BIGTK key-data encapsulation (KDE).
pub mod Find
pub mod Kde
pub mod Management
pub mod Bip
