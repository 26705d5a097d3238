-- ===== src/I915/Ids.antt =====
-- i915.c: the device identifiers of `i915_info_from_device_id`.
use external_minigbm.Base.{ℕ, List, [], ◌∷◌}

abbrev pub gen3_ids : List ℕ
gen3_ids = 9602 ∷ 9618 ∷ 10098 ∷ 10146 ∷ 10158 ∷ 10690 ∷ 10674 ∷ 10706 ∷ 40961 ∷ 40977 ∷ []

abbrev pub gen4_ids : List ℕ
gen4_ids =
    10658 ∷ 10642 ∷ 10626 ∷ 10610 ∷ 10754 ∷ 10770 ∷ 10818 ∷ 11778 ∷ 11794 ∷ 11810 ∷ 11826 ∷ 11842
    ∷ 11922 ∷ []

abbrev pub gen5_ids : List ℕ
gen5_ids = 66 ∷ 70 ∷ []

abbrev pub gen6_ids : List ℕ
gen6_ids = 258 ∷ 274 ∷ 290 ∷ 262 ∷ 278 ∷ 294 ∷ 266 ∷ []

abbrev pub gen7_ids : List ℕ
gen7_ids =
    338 ∷ 354 ∷ 342 ∷ 358 ∷ 346 ∷ 362 ∷ 1026 ∷ 1042 ∷ 1058 ∷ 1030 ∷ 1046 ∷ 1062 ∷ 1034 ∷ 1050 ∷ 1066
    ∷ 1035 ∷ 1051 ∷ 1067 ∷ 1038 ∷ 1054 ∷ 1070 ∷ 3074 ∷ 3090 ∷ 3106 ∷ 3078 ∷ 3094 ∷ 3110 ∷ 3082
    ∷ 3098 ∷ 3114 ∷ 3083 ∷ 3099 ∷ 3115 ∷ 3086 ∷ 3102 ∷ 3118 ∷ 2562 ∷ 2578 ∷ 2594 ∷ 2566 ∷ 2582
    ∷ 2598 ∷ 2570 ∷ 2586 ∷ 2602 ∷ 2571 ∷ 2587 ∷ 2603 ∷ 2574 ∷ 2590 ∷ 2606 ∷ 3330 ∷ 3346 ∷ 3362
    ∷ 3334 ∷ 3350 ∷ 3366 ∷ 3338 ∷ 3354 ∷ 3370 ∷ 3339 ∷ 3355 ∷ 3371 ∷ 3342 ∷ 3358 ∷ 3374 ∷ 3889
    ∷ 3890 ∷ 3891 ∷ 343 ∷ 341 ∷ []

abbrev pub gen8_ids : List ℕ
gen8_ids =
    8880 ∷ 8881 ∷ 8882 ∷ 8883 ∷ 5634 ∷ 5638 ∷ 5642 ∷ 5643 ∷ 5645 ∷ 5646 ∷ 5650 ∷ 5654 ∷ 5658 ∷ 5659
    ∷ 5661 ∷ 5662 ∷ 5666 ∷ 5670 ∷ 5674 ∷ 5675 ∷ 5677 ∷ 5678 ∷ []

abbrev pub gen9_ids : List ℕ
gen9_ids =
    6402 ∷ 6406 ∷ 6410 ∷ 6411 ∷ 6414 ∷ 6418 ∷ 6419 ∷ 6421 ∷ 6422 ∷ 6423 ∷ 6426 ∷ 6427 ∷ 6429 ∷ 6430
    ∷ 6433 ∷ 6435 ∷ 6438 ∷ 6439 ∷ 6442 ∷ 6443 ∷ 6445 ∷ 6450 ∷ 6458 ∷ 6459 ∷ 6461 ∷ 2692 ∷ 6788
    ∷ 6789 ∷ 23172 ∷ 23173 ∷ 12676 ∷ 12677 ∷ 22786 ∷ 22790 ∷ 22794 ∷ 22792 ∷ 22795 ∷ 22798 ∷ 22803
    ∷ 22805 ∷ 22807 ∷ 22802 ∷ 22806 ∷ 22810 ∷ 22811 ∷ 22813 ∷ 22814 ∷ 22817 ∷ 22819 ∷ 22822 ∷ 22823
    ∷ 22843 ∷ 22812 ∷ 34752 ∷ 34762 ∷ 16016 ∷ 16019 ∷ 16025 ∷ 16028 ∷ 16017 ∷ 16018 ∷ 16022 ∷ 16024
    ∷ 16026 ∷ 16027 ∷ 16020 ∷ 16041 ∷ 16037 ∷ 16038 ∷ 16039 ∷ 16040 ∷ 16033 ∷ 16036 ∷ 16032 ∷ 16035
    ∷ 16034 ∷ 39713 ∷ 39840 ∷ 39842 ∷ 39844 ∷ 39845 ∷ 39848 ∷ 39850 ∷ 39851 ∷ 39852 ∷ 39745 ∷ 39872
    ∷ 39874 ∷ 39876 ∷ 39877 ∷ 39878 ∷ 39880 ∷ 39882 ∷ 39883 ∷ 39884 ∷ 39910 ∷ 39926 ∷ []

abbrev pub gen11_ids : List ℕ
gen11_ids =
    35408 ∷ 35409 ∷ 35410 ∷ 35411 ∷ 35412 ∷ 35414 ∷ 35415 ∷ 35416 ∷ 35417 ∷ 35418 ∷ 35419 ∷ 35420
    ∷ 35421 ∷ 35441 ∷ 17664 ∷ 17729 ∷ 17745 ∷ 17749 ∷ 17751 ∷ 17777 ∷ 20049 ∷ 20053 ∷ 20055 ∷ 20065
    ∷ 20081 ∷ []

abbrev pub gen12_ids : List ℕ
gen12_ids =
    19594 ∷ 19595 ∷ 19596 ∷ 19600 ∷ 19610 ∷ 18048 ∷ 18049 ∷ 18050 ∷ 18051 ∷ 18056 ∷ 18057 ∷ 18064
    ∷ 18065 ∷ 18066 ∷ 18067 ∷ 18072 ∷ 18073 ∷ 17958 ∷ 17960 ∷ 17962 ∷ 18080 ∷ 18081 ∷ 18082 ∷ 18083
    ∷ 18086 ∷ 18088 ∷ 18090 ∷ 18096 ∷ 18097 ∷ 18098 ∷ 18099 ∷ 18112 ∷ 18113 ∷ 18114 ∷ 18115 ∷ 39488
    ∷ 39497 ∷ 39513 ∷ 39520 ∷ 39528 ∷ 39536 ∷ 39544 ∷ 39616 ∷ 39625 ∷ 39641 ∷ 39672 ∷ 18693 ∷ 18694
    ∷ 18695 ∷ 18696 ∷ []

abbrev pub adlp_ids : List ℕ
adlp_ids =
    18080 ∷ 18081 ∷ 18082 ∷ 18083 ∷ 18086 ∷ 18088 ∷ 18090 ∷ 17962 ∷ 17958 ∷ 17960 ∷ 18096 ∷ 18097
    ∷ 18098 ∷ 18099 ∷ 18112 ∷ 18113 ∷ 18114 ∷ 18115 ∷ 18128 ∷ 18129 ∷ 18130 ∷ 18131 ∷ 18132 ∷ []

abbrev pub rplp_ids : List ℕ
rplp_ids = 42784 ∷ 42785 ∷ 42912 ∷ 42913 ∷ 42920 ∷ 42921 ∷ 42922 ∷ 42923 ∷ 42924 ∷ 42925 ∷ []

abbrev pub mtl_ids : List ℕ
mtl_ids = 32064 ∷ 32096 ∷ 32069 ∷ 32085 ∷ 32213 ∷ []
