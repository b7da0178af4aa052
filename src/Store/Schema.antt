-- ===== src/Store/Schema.antt =====
-- The table that internal/audit/store.go creates, and its columns.
use webridge.Prelude.{◌≡◌, refl, [], ◌∷◌, map, text}
use webridge.Prelude.Table.{Table}
use webridge.Store.Rows.{insert_columns, select_columns}

pub data ColumnType : Type 0 where
  datetime text_type integer_type key_type : ColumnType

-- The columns of `createSchema`; all but the first two have a default.
unfoldable pub schema : Table ColumnType
schema =
    (text "id", key_type)
    ∷ (text "time", datetime)
    ∷ (text "action", text_type)
    ∷ (text "user", text_type)
    ∷ (text "ip", text_type)
    ∷ (text "detail", text_type)
    ∷ (text "url", text_type)
    ∷ (text "provider", text_type)
    ∷ (text "filename", text_type)
    ∷ (text "file_size", integer_type)
    ∷ (text "mime_type", text_type)
    ∷ (text "resolved_url", text_type)
    ∷ (text "bytes_transferred", integer_type)
    ∷ (text "duration_ms", integer_type)
    ∷ (text "sha256", text_type)
    ∷ (text "anomaly_flags", text_type)
    ∷ (text "client_ua", text_type)
    ∷ []

-- The INSERT writes, and the SELECT reads, all columns of the table but the key, in the table's order.
pub columns-schema :
    (map (λ c. c.0) schema ≡ text "id" ∷ insert_columns) × (insert_columns ≡ select_columns)
unfolding schema text
columns-schema = (refl, refl)
