-- ===== src/EtherCtrl/Stale.antt =====
-- Labs/Lab 3/etherCtrl.cpp, the choices 2, 3 and 4 when `ioctl` fails.
