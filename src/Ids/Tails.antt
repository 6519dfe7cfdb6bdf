-- ===== src/Ids/Tails.antt =====
-- The seed from the log tails, and the ids that are minted after it.
use aver.Prelude.{List}
