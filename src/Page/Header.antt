-- ===== src/Page/Header.antt =====
-- internal/storage/page/page_header.go: the 24-byte page header, over the bytes that begin with it.
-- The view is the first 24 bytes of the page, so its byte k is the page's byte k.
use mini_db.Base.{ℕ, List}
use mini_db.Base.Endian.{get_uint, put_uint}

unfoldable pub pd_lsn : List ℕ → ℕ
pd_lsn h = get_uint 0 8 h

unfoldable pub set_pd_lsn : ℕ → List ℕ → List ℕ
set_pd_lsn pd h = put_uint 0 8 pd h

unfoldable pub pd_checksum : List ℕ → ℕ
pd_checksum h = get_uint 8 2 h

unfoldable pub set_pd_checksum : ℕ → List ℕ → List ℕ
set_pd_checksum pd h = put_uint 8 2 pd h

unfoldable pub pd_flags : List ℕ → ℕ
pd_flags h = get_uint 10 2 h

unfoldable pub set_pd_flags : ℕ → List ℕ → List ℕ
set_pd_flags pd h = put_uint 10 2 pd h

-- The start of the tuple data area, at the high end of the free space.
unfoldable pub pd_lower : List ℕ → ℕ
pd_lower h = get_uint 12 2 h

unfoldable pub set_pd_lower : ℕ → List ℕ → List ℕ
set_pd_lower pd h = put_uint 12 2 pd h

-- The end of the slot directory, at the low end of the free space.
unfoldable pub pd_upper : List ℕ → ℕ
pd_upper h = get_uint 14 2 h

unfoldable pub set_pd_upper : ℕ → List ℕ → List ℕ
set_pd_upper pd h = put_uint 14 2 pd h

unfoldable pub pd_special : List ℕ → ℕ
pd_special h = get_uint 16 2 h

unfoldable pub set_pd_special : ℕ → List ℕ → List ℕ
set_pd_special pd h = put_uint 16 2 pd h

unfoldable pub pd_pagesize : List ℕ → ℕ
pd_pagesize h = get_uint 18 2 h

unfoldable pub set_pd_pagesize : ℕ → List ℕ → List ℕ
set_pd_pagesize pd h = put_uint 18 2 pd h

unfoldable pub pd_prune_xid : List ℕ → ℕ
pd_prune_xid h = get_uint 20 4 h

unfoldable pub set_pd_prune_xid : ℕ → List ℕ → List ℕ
set_pd_prune_xid pd h = put_uint 20 4 pd h
