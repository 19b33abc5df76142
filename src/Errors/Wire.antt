-- ===== src/Errors/Wire.antt =====
-- `AcmpError.from_jsonrpc` of src/acmp/errors.py.
use sdk_reference.Json.{Object}
use sdk_reference.Errors.{AcmpError, acmp_error, resolve_code}
use sdk_reference.Exec.{Outcome, ok, bind}
use sdk_reference.Access.{as_num, as_str, as_obj, item_as, get_as}

-- `message` and `data` are read by `.get`, so either may be absent.
unfoldable pub from_jsonrpc : Object → Outcome AcmpError
from_jsonrpc err = bind (item_as as_num err "code") λ raw.
    bind (get_as as_str err "message") λ message.
      bind (get_as as_obj err "data") λ details. ok (acmp_error (resolve_code raw) message details)
