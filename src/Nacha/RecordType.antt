-- ===== src/Nacha/RecordType.antt =====
-- The record types, by the first byte of a record.
use ach_orchestrator.Base.{ℕ}

-- `RecordTypeFileHeader`
abbrev pub file_header : ℕ
file_header = b'1'

-- `RecordTypeBatchHeader`
abbrev pub batch_header : ℕ
batch_header = b'5'

-- `RecordTypeEntry`
abbrev pub entry : ℕ
entry = b'6'

-- `RecordTypeAddenda`
abbrev pub addenda : ℕ
addenda = b'7'

-- `RecordTypeBatchCtrl`
abbrev pub batch_ctrl : ℕ
batch_ctrl = b'8'

-- `RecordTypeFileCtrl`
abbrev pub file_ctrl : ℕ
file_ctrl = b'9'
