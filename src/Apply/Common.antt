-- ===== src/Apply/Common.antt =====
-- How `apply` answers for a record whose id is taken.
use aver.Prelude.{Bool, if◌then◌else◌}
use aver.Exec.{Result, ok, err, replay_duplicate_id}
use aver.Db.{Applied, duplicate}

-- Identical content is a duplicate, other content a collision.
abbrev pub settle : Bool → Result Applied
settle same = if same then ok duplicate else err replay_duplicate_id
