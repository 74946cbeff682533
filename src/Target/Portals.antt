-- ===== src/Target/Portals.antt =====
-- The directory of a network portal (rtslib/target.py): its name gives back the address and the port.
