-- ===== src/Web/Forms.antt =====
-- web/controllers/base.go: the values of a request, and the answers. `query` is the text of a value,
-- empty where there is none, and `escape` is `html.EscapeString`.
use next_nps.Config.Lines.{signed}
use next_nps.Base.{◌==◌, Bytes, codes, Bool, ◌||◌, nat_eq, bytes_eq}
use next_nps.Base.Int.{ℤ, ℤ_eq}

pub record Form : Type 0 where
  pub query : Bytes → Bytes
  pub escape : Bytes → Bytes

-- An answer ends the handler: `AjaxErr` and `AjaxOk` stop the run. `shown` is a page of an error.
pub data Reply : Type 0 where
  ajax_ok : Reply
  ajax_err : Reply
  stopped : Reply

abbrev pub get_escape_string : Form → Bytes → Bytes
get_escape_string f key = f.escape (f.query key)

-- `strconv.Atoi` without its error.
unfoldable pub get_int_no_err : Form → Bytes → ℤ
unfolding signed
get_int_no_err f key = signed (f.query key)

-- `strconv.ParseBool` without its error.
unfoldable pub get_bool_no_err : Form → Bytes → Bool
get_bool_no_err f key =
    let v = f.query key in
    v == codes "1"
    || v == codes "t"
    || v == codes "T"
    || v == codes "true"
    || v == codes "TRUE"
    || v == codes "True"
