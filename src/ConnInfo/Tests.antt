-- ===== src/ConnInfo/Tests.antt =====
-- A `conn_info` through `user_data` and back.
use iowrapper.Base.{◌≡◌, refl}
use iowrapper.ConnInfo.{ConnInfo, to_user_data, of_user_data}

abbrev written : ConnInfo
written = record { fd = 5; type = 2; bid = 4095 }

written_back : of_user_data (to_user_data written) ≡ written
unfolding to_user_data of_user_data
written_back = refl
