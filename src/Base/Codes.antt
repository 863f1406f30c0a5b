-- ===== src/Base/Codes.antt =====
-- The return codes of artnet/common.h. `enet` is -1, which tod.c returns as a plain failure.
pub data Code : Type 0 where
  eok enet emem earg estate eaction : Code
