-- ===== src/Kvstore/Message.antt =====
-- The messages of kvmessage.h and kvconstants.h.
use group.Shared.{Option}
use group.Kvstore.Text.{CString}
use group.Kvstore.Outcome.{Errno, key_len, val_len, no_key}

-- `msgtype_t`
pub data MsgType : Type 0 where
  getreq putreq delreq getresp resp ack abort commit vote_commit vote_abort register info : MsgType

-- The texts of `MSG_SUCCESS` and the `ERRMSG` constants, and any other text.
pub data Note : Type 0 where
  success no_key_note key_len_note val_len_note invalid_request not_implemented generic_error : Note
  other : CString → Note

-- `kvmessage_t`; `none` is a null pointer.
pub record Message : Type 0 where
  pub type : MsgType
  pub key : Option CString
  pub value : Option CString
  pub message : Option Note

-- GETMSG
unfoldable pub getmsg : Errno → Note
getmsg key_len = key_len_note
getmsg val_len = val_len_note
getmsg no_key = no_key_note
getmsg _ = generic_error
