-- ===== src/Base/Uses.antt =====
-- What becomes of a resource that a driver takes and gives back.
-- `misused`: taken while it was held, or given back while it was not.
pub data Use : Type 0 where
  free held misused : Use

abbrev pub take : Use → Use
take free = held
take _ = misused

abbrev pub give : Use → Use
give held = free
give _ = misused
